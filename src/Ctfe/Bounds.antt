-- ===== src/Ctfe/Bounds.antt =====
-- trillian/ctfe/handlers.go: what the parameters of a request can be.
use native.Mathlib.Nat.{mod-lt, mod-add-div, mul-mod_right}
use certificate_transparency.Prelude.{
  ℕ, ◌+◌, ◌-◌, ◌/◌, ◌%◌, ◌^◌, ◌≡◌, ◌≢◌, ◌≤◌, ◌<◌, ◌⊎◌, inl, inr, refl, ap, ◌∙◌, Bool, true, false,
  [], ◌∷◌, Option, none, some, if◌then◌else◌, Bool-cases, true-ne_false, ltb, ◌==◌, arith, ltb→lt,
  ltb→ge, ge→ltb,
}
use certificate_transparency.Prelude.Int.{ℤ, pos, negsuc}
use certificate_transparency.Prelude.Int64.{add64, sub64, add64-pos, sub64-pos, rem}
use certificate_transparency.Prelude.Outcome.{ok, err, ok_inj}
use certificate_transparency.Prelude.Text.{Text, codes}
use certificate_transparency.Ctfe.Params.{
  ParamError, malformed, negative, not_a_range, parsed, with_sign, parse_natural, round_range,
  cap_range, parse_int, parse_get_entries_range,
}

not_equal : (m n : ℕ) → m < n → (n == m) ≡ false
not_equal m n h = ground arith

-- The end that is left of a range: the range is not empty, ends within the one that there was, and has
-- no more than a number of entries; it is cut so that it ends at a multiple of that number, if it is
-- to be and had as many entries.
abbrev pub IsCapped : Bool → ℕ → ℕ → ℕ → ℕ → Type 0
IsCapped align max_range start end last =
    (start ≤ last)
    × (last ≤ end)
    × (last + 1 ≤ start + max_range)
    × (align ≡ true → max_range ≤ end - start + 1 → (last + 1) % max_range ≡ 0)

aligned : (n m : ℕ) → (n - n % m) % m ≡ 0
aligned n m = ap (λ (k : ℕ). k % m) (omega (arith, mod-add-div n m)) ∙ mul-mod_right m (n / m)

-- The end that is left, cut back to a multiple.
cut-IsCapped :
    (align : Bool) (max_range start end last : ℕ)
    → 0 < max_range
    → start + max_range ≡ last + 1
    → last ≤ end
    → end + 1 < 2 ^ 63
    → (sub64 (pos last) (rem (add64 (pos last) (pos 1)) (pos max_range))
        ≡ pos (last - (last + 1) % max_range))
      × IsCapped align max_range start end (last - (last + 1) % max_range)
cut-IsCapped align max_range start end last positive full within small =
    let short = mod-lt (last + 1) positive in
    (
      rw (add64-pos last 1 (omega arith))
          (sub64-pos last ((last + 1) % max_range) (omega (arith, short)) (omega arith)),
      (
        omega (arith, short),
        omega arith,
        omega arith,
        λ on many.
            ap (λ (k : ℕ). k % max_range) (omega (arith, short)) ∙ aligned (last + 1) max_range,
      ),
    )

-- The last step, where the range that is left has all the entries that it may have, or fewer.
finish-IsCapped :
    (align many : Bool) (max_range start end last : ℕ)
    → 0 < max_range
    → start ≤ last
    → last ≤ end
    → last + 1 ≤ start + max_range
    → end + 1 < 2 ^ 63
    → (many ≡ true → start + max_range ≡ last + 1)
    → (max_range ≤ end - start + 1 → many ≡ true)
    → (left : ℕ) × (round_range align many (pos max_range) (pos start) (pos last)
        ≡ ok (pos start, pos left))
      × IsCapped align max_range start end left
finish-IsCapped false many max_range start end last positive ordered within sized small full full' =
    (last, refl, (ordered, within, sized, λ on. cc))
finish-IsCapped true false max_range start end last positive ordered within sized small full full' =
    (last, refl, (ordered, within, sized, λ on h. absurd (true-ne_false (full' h) refl)))
finish-IsCapped true true max_range start end last positive ordered within sized small full full' =
    let (same, h) = cut-IsCapped true max_range start end last positive (full refl) within small in
    (_, rw (not_equal 0 max_range positive, same) refl, h)

cap_range-IsCapped :
    (align : Bool) (max_range start end : ℕ)
    → 0 < max_range
    → start ≤ end
    → end + 1 < 2 ^ 63
    → (last : ℕ) × (cap_range align (pos max_range) (pos start) (pos end)
        ≡ ok (pos start, pos last))
      × IsCapped align max_range start end last
unfolding cap_range
cap_range-IsCapped align max_range start end positive ordered small =
    rw (sub64-pos end start ordered (omega arith), add64-pos (end - start) 1 (omega arith))
      (elim (Bool-cases (ltb max_range (end - start + 1))) [
        | inl more ↦
            rw
              (
                more,
                add64-pos start max_range (omega (arith, ltb→lt max_range (end - start + 1) more)),
                sub64-pos (start + max_range) 1 (omega arith)
                    (omega (arith, ltb→lt max_range (end - start + 1) more)),
              )
              (finish-IsCapped align _ max_range start end (start + max_range - 1) positive
                (omega arith) (omega (arith, ltb→lt max_range (end - start + 1) more)) (omega arith)
                small (λ e. omega arith)
                (λ e. ground (arith, ltb→lt max_range (end - start + 1) more)))
        | inr fewer ↦ rw fewer (
            finish-IsCapped align _ max_range start end end positive ordered (omega arith)
              (omega (arith, ltb→ge max_range (end - start + 1) fewer)) small
              (λ e. ground (arith, ltb→ge max_range (end - start + 1) fewer)) (λ e. ground arith))
      ])

parsed-some : (o : Option ℤ) (i : ℤ) → parsed o ≡ ok i → o ≡ some i
parsed-some none i h = cc
parsed-some (some j) i h = ap some (ok_inj h)

signed_bound : (minus : Bool) (o : Option ℕ) (n : ℕ) → with_sign minus o ≡ some (pos n) → n < 2 ^ 63
signed_bound minus none n h = cc
signed_bound true (some m) n h = ground arith
signed_bound false (some m) n h = ground arith

pub parse_int_bound : (s : Text) (n : ℕ) → parse_int s ≡ ok (pos n) → n < 2 ^ 63
unfolding parse_int
parse_int_bound [] n h = cc
parse_int_bound (c ∷ cs) n h = elim (Bool-cases (c == 45)) [
  | inl minus ↦ signed_bound true (parse_natural cs) n (parsed-some _ (pos n) (rw (minus) at h))
  | inr plus ↦
      signed_bound false (parse_natural (if c == 43 then cs else c ∷ cs)) n
        (parsed-some _ (pos n) (rw plus at h))
]

-- What a text parses to.
pub data Cases (s : Text) : Type 0 where
  refused : (e : ParamError) → parse_int s ≡ err e → Cases s
  natural : (n : ℕ) → n < 2 ^ 63 → parse_int s ≡ ok (pos n) → Cases s
  below_zero : (n : ℕ) → parse_int s ≡ ok (negsuc n) → Cases s

parse_int-Cases : (s : Text) → Cases s
unfolding parse_int
parse_int-Cases [] = refused malformed refl
parse_int-Cases (c ∷ cs) = go _ refl
  where
    go : (o : Option ℤ) → parse_int (c ∷ cs) ≡ parsed o → Cases (c ∷ cs)
    go none e = refused malformed e
    go (some (pos n)) e = natural n (parse_int_bound (c ∷ cs) n e) e
    go (some (negsuc n)) e = below_zero n e

-- The range of a get-entries request, where the bound on its entries is positive and the end is not
-- the biggest int64: the request is refused with an error, or both parameters are numbers that are
-- not negative and in order, and the range that is left starts at the first, is not empty, ends
-- within it and has no more entries than the bound, and if ends are to be aligned and it had as many
-- entries, it ends at a multiple of the bound.
pub parse_get_entries_range-IsCapped :
    (align : Bool) (max_range : ℕ) (start_val end_val : Text)
    → 0 < max_range
    → (parse_int end_val ≢ ok (pos (2 ^ 63 - 1)))
    → ((e : ParamError) × (parse_get_entries_range align (pos max_range) start_val end_val ≡ err e))
      ⊎ ((start : ℕ) × (end : ℕ) × (last : ℕ) × (parse_int start_val ≡ ok (pos start))
          × (parse_int end_val ≡ ok (pos end))
          × (start ≤ end)
          × (end + 1 < 2 ^ 63)
          × (parse_get_entries_range align (pos max_range) start_val end_val
              ≡ ok (pos start, pos last))
          × IsCapped align max_range start end last)
unfolding parse_get_entries_range
parse_get_entries_range-IsCapped align max_range start_val end_val positive not_top =
    elim (parse_int-Cases start_val) [
      | refused e p ↦ inl (e, rw p refl)
      | below_zero start p ↦ elim (parse_int-Cases end_val) [
        | refused e q ↦ inl (e, rw (p, q) refl)
        | below_zero end q ↦ inl (negative, rw (p, q) refl)
        | natural end small q ↦ inl (negative, rw (p, q) refl)
      ]
      | natural start bound p ↦ elim (parse_int-Cases end_val) [
        | refused e q ↦ inl (e, rw (p, q) refl)
        | below_zero end q ↦ inl (negative, rw (p, q) (rw (ge→ltb start 0 (omega arith)) refl))
        | natural end small q ↦ elim (Bool-cases (ltb end start)) [
          | inl out ↦ inl (
            not_a_range,
            rw (p, q) (rw (ge→ltb start 0 (omega arith), ge→ltb end 0 (omega arith), out) refl),
          )
          | inr within ↦
              let ordered = ltb→ge end start within in
              let lower : end ≢ 2 ^ 63 - 1 = λ e. not_top (q ∙ ap (λ (k : ℕ). ok (pos k)) e) in
              let (last, is_last, capped) =
                cap_range-IsCapped align max_range start end positive ordered
                  (omega (arith, lower, small)) in
              inr (
                start,
                end,
                last,
                p,
                q,
                ordered,
                omega (arith, lower, small),
                rw (p, q)
                    (rw (ge→ltb start 0 (omega arith), ge→ltb end 0 (omega arith), within) is_last),
                capped,
              )
        ]
      ]
    ]

-- The bound on the entries of a get-entries request can be evaded: from 0 to the biggest int64, the
-- number of entries wraps around, and the range is left as it is, for every bound and aligned or not.
pub range_uncapped :
    (align : Bool) (max_range : ℕ)
    → parse_get_entries_range align (pos max_range) (codes "0") (codes "9223372036854775807")
      ≡ ok (pos 0, pos (2 ^ 63 - 1))
unfolding parse_get_entries_range add64 sub64
range_uncapped true max_range = refl
range_uncapped false max_range = refl

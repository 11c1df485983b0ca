-- ===== src/Policy/Listed.antt =====
-- loglist2/loglist2.go and ctpolicy/ctpolicy.go: which operators are Google's, and which logs `populate`
-- puts into a group.
use certificate_transparency.Prelude.{
  ◌≡◌, ◌⊎◌, ◌↔◌, inl, inr, refl, ap, subst, Bool, true, List, [], ◌∷◌, ◌++◌, Bool-cases,
  true-ne_false, &&_split, ||_split, arith, ◌==◌,
}
use mathlib.Core.Path.{ap₂}
use certificate_transparency.Prelude.Text.{Text, codes, starts_with, text_eq}
use certificate_transparency.Submission.State.{has_text, add_name}
use certificate_transparency.Submission.Keys.{text_eq→eq}
use certificate_transparency.Submission.Needs.{IsDistinct, add_name-IsDistinct}
use certificate_transparency.Policy.Groups.{
  Operator, contains, is_google_address, google_operated, add_urls, populate,
}

-- A predicate holds of an element.
abbrev pub Any {ℓ} : {A : Type ℓ} → (A → Type 0) → List A → Type 0
Any P [] = ⊥
Any P (x ∷ xs) = P x ⊎ Any P xs

-- The URL is in a list.
abbrev pub IsIn : Text → List Text → Type 0
IsIn u urls = Any (λ x. x ≡ u) urls

-- One of the operator's addresses has Google's in it.
abbrev pub IsGoogle : Operator → Type 0
IsGoogle op =
    Any
      (λ (e : Text).
        (p : Text) × ((s : Text) × (e ≡ p ++ (codes "google-ct-logs@googlegroups" ++ s))))
      op.email

starts_with-rest : (s p : Text) → starts_with s p ≡ true → (rest : Text) × (s ≡ p ++ rest)
unfolding starts_with
starts_with-rest s [] h = (s, refl)
starts_with-rest [] (y ∷ ys) h = cc
starts_with-rest (x ∷ xs) (y ∷ ys) h =
    let (first, others) = &&_split (x == y) (starts_with xs ys) h in
    let (rest, e) = starts_with-rest xs ys others in (rest, ap₂ ◌∷◌ (ground arith) e)

starts_with-append : (p rest : Text) → starts_with (p ++ rest) p ≡ true
unfolding starts_with
starts_with-append [] rest = refl
starts_with-append (y ∷ ys) rest = ground (arith, starts_with-append ys rest)

contains-parts :
    (s part : Text)
    → contains s part ≡ true
    → (p : Text) × ((rest : Text) × (s ≡ p ++ (part ++ rest)))
unfolding contains
contains-parts [] part h = ([], starts_with-rest [] part h)
contains-parts (c ∷ cs) part h = elim (Bool-cases (starts_with (c ∷ cs) part)) [
  | inl here ↦ ([], starts_with-rest (c ∷ cs) part here)
  | inr later ↦
      let (p, (rest, e)) = contains-parts cs part (rw later at h) in (c ∷ p, (rest, ap (◌∷◌ c) e))
]

contains_here : (s part : Text) → starts_with s part ≡ true → contains s part ≡ true
unfolding contains
contains_here [] part h = h
contains_here (c ∷ cs) part h = rw h refl

contains-append : (p part rest : Text) → contains (p ++ (part ++ rest)) part ≡ true
unfolding contains
contains-append [] part rest = contains_here (part ++ rest) part (starts_with-append part rest)
contains-append (c ∷ p) part rest = ground (arith, contains-append p part rest)

is_google_address_iff :
    (es : List Text)
    → (is_google_address es ≡ true)
      ↔ Any
          (λ (e : Text).
            (p : Text) × ((s : Text) × (e ≡ p ++ (codes "google-ct-logs@googlegroups" ++ s))))
          es
is_google_address_iff [] = ((λ h. cc), (λ h. absurd h))
is_google_address_iff (e ∷ es) =
    let google = codes "google-ct-logs@googlegroups" in
    let (found, back) = is_google_address_iff es in
    (
      (λ h. elim (||_split (contains e google) (is_google_address es) h) [
        | inl here ↦ inl (contains-parts e google here)
        | inr later ↦ inr (found later)
      ]),
      (λ h. elim h [
        | inl (p, (s, same)) ↦
            let here : contains e google ≡ true = rw same (contains-append p google s) in
            rw here refl
        | inr later ↦ ground (arith, back later)
      ]),
    )

-- GoogleOperated finds the operators with one of Google's addresses.
pub google_operated_iff : (op : Operator) → (google_operated op ≡ true) ↔ IsGoogle op
unfolding google_operated
google_operated_iff op = is_google_address_iff op.email

has_text-IsIn : (u : Text) (xs : List Text) → has_text u xs ≡ true → IsIn u xs
unfolding has_text
has_text-IsIn u [] h = cc
has_text-IsIn u (x ∷ xs) h = elim (||_split (text_eq x u) (has_text u xs) h) [
  | inl same ↦ inl (text_eq→eq x u same)
  | inr later ↦ inr (has_text-IsIn u xs later)
]

add_name_iff : (u x : Text) (xs : List Text) → IsIn u (add_name x xs) ↔ ((x ≡ u) ⊎ IsIn u xs)
unfolding add_name
add_name_iff u x xs = elim (Bool-cases (has_text x xs)) [
  | inl old ↦ rw old (
    (λ h. inr h),
    (λ h. elim h [
      | inl same ↦ subst (λ (z : Text). IsIn z xs) same (has_text-IsIn x xs old)
      | inr in_xs ↦ in_xs
    ]),
  )
  | inr new ↦ rw new ((λ h. h), (λ h. h))
]

add_urls_iff :
    (u : Text) (ls urls : List Text) → IsIn u (add_urls ls urls) ↔ (IsIn u ls ⊎ IsIn u urls)
unfolding add_urls
add_urls_iff u [] urls =
    ((λ h. inr h), (λ h. elim h [ inl nowhere ↦ absurd nowhere | inr there ↦ there ]))
add_urls_iff u (l ∷ ls) urls =
    let (to, from) = add_name_iff u l (add_urls ls urls) in
    let (to', from') = add_urls_iff u ls urls in
    (
      (λ h. elim (to h) [
        | inl same ↦ inl (inl same)
        | inr later ↦ elim (to' later) [ inl there ↦ inl (inr there) | inr there ↦ inr there ]
      ]),
      (λ h. elim h [
        | inl (inl same) ↦ from (inl same)
        | inl (inr there) ↦ from (inr (from' (inl there)))
        | inr there ↦ from (inr (from' (inr there)))
      ]),
    )

add_urls-IsDistinct : (ls urls : List Text) → IsDistinct urls → IsDistinct (add_urls ls urls)
unfolding add_urls
add_urls-IsDistinct [] urls h = h
add_urls-IsDistinct (l ∷ ls) urls h =
    add_name-IsDistinct l (add_urls ls urls) (add_urls-IsDistinct ls urls h)

-- The URLs are those of the logs of the operators with a property, each once.
pub record IsListing (P : Operator → Type 0) (ops : List Operator) (urls : List Text) : Type 0 where
  pub sound : (u : Text) → IsIn u urls → Any (λ (op : Operator). P op × IsIn u op.logs) ops
  pub complete : (u : Text) → Any (λ (op : Operator). P op × IsIn u op.logs) ops → IsIn u urls
  pub distinct : IsDistinct urls

-- populate lists the logs of the operators that its test lets pass.
pub populate-IsListing :
    (included : Operator → Bool) (P : Operator → Type 0)
    → ((op : Operator) → (included op ≡ true) ↔ P op)
    → (ops : List Operator) → IsListing P ops (populate included ops)
unfolding populate
populate-IsListing included P same [] = record {
  sound = λ u h. h;
  complete = λ u h. h;
  distinct = tt;
}
populate-IsListing included P same (op ∷ ops) =
    let k = populate-IsListing included P same ops in
    elim (Bool-cases (included op)) [
      | inl wanted ↦ rw wanted (record {
        sound = λ u h. elim ((add_urls_iff u op.logs (populate included ops)).0 h) [
          | inl here ↦ inl ((same op).0 wanted, here)
          | inr there ↦ inr (k.sound u there)
        ];
        complete = λ u h.
            (add_urls_iff u op.logs (populate included ops)).1
              (elim h [ inl (p, here) ↦ inl here | inr there ↦ inr (k.complete u there) ]);
        distinct = add_urls-IsDistinct op.logs (populate included ops) k.distinct;
      })
      | inr passed ↦ rw passed (record {
        sound = λ u h. inr (k.sound u h);
        complete = λ u h. elim h [
          | inl (p, here) ↦ absurd (true-ne_false ((same op).1 p) passed)
          | inr there ↦ k.complete u there
        ];
        distinct = k.distinct;
      })
    ]

-- ===== src/Ranges/Tracker.antt =====
-- ingestor/ranges/tracker.go: `Tracker` and its operations. The time it started is left out.
use certificate_transparency.Prelude.{
  ℕ, ◌+◌, ◌-◌, ◌^◌, Bool, true, false, ◌&&◌, ◌||◌, List, [], ◌∷◌, ◌++◌, ltb, leb, ◌==◌,
  if◌then◌else◌,
}
use certificate_transparency.Prelude.Outcome.{Outcome, ok, err}
use certificate_transparency.Prelude.Int.{ℤ, pos, negsuc, ltz, eqz}

-- Indices are int64. A tracker's own are not negative: its constructor sees to that.
pub record SubRange : Type 0 where
  pub first : ℕ
  pub last : ℕ

pub record Watermarks : Type 0 where
  pub lo : ℤ
  pub mid : ℤ
  pub hi : ℤ

pub record Tracker : Type 0 where
  pub start : ℕ
  pub end : ℕ
  pub wm : Watermarks
  pub sub_ranges : List SubRange

abbrev pub minus_one : ℤ
minus_one = negsuc 0

abbrev pub max_int64 : ℤ
max_int64 = pos (2 ^ 63 - 1)

-- `mid + 1` on 64 bits.
abbrev pub succ64 : ℕ → ℤ
succ64 n = if n == 2 ^ 63 - 1 then negsuc (2 ^ 63 - 1) else pos (n + 1)

-- The first loop of `update`.
unfoldable pub extent : ℤ → ℤ → List SubRange → ℤ × ℤ
extent lo hi [] = (lo, hi)
extent lo hi (sr ∷ srs) =
    extent (if ltz (pos sr.first) lo then pos sr.first else lo)
      (if ltz hi (pos sr.last) then pos sr.last else hi) srs

-- Its second loop, over the sub-ranges that follow on one another.
unfoldable pub contiguous : ℤ → ℤ → List SubRange → ℤ
contiguous next_lo mid [] = mid
contiguous next_lo mid (sr ∷ srs) =
    let joined = contiguous (succ64 sr.last) (pos sr.last) srs in
    let apart = contiguous next_lo mid srs in if eqz (pos sr.first) next_lo then joined else apart

-- `update`.
unfoldable pub update : ℕ → List SubRange → Watermarks
unfolding extent contiguous
update start srs =
    let (lo, hi) = extent max_int64 minus_one srs in
    record {
      lo = lo;
      mid = if eqz lo (pos start) then contiguous lo minus_one srs else minus_one;
      hi = hi;
    }

-- `sort.Sort`, by the first index.
unfoldable pub insert_sorted : SubRange → List SubRange → List SubRange
insert_sorted r [] = r ∷ []
insert_sorted r (s ∷ srs) =
    let rest = insert_sorted r srs in if leb r.first s.first then r ∷ s ∷ srs else s ∷ rest

unfoldable pub sort : List SubRange → List SubRange
unfolding insert_sorted
sort [] = []
sort (r ∷ srs) = insert_sorted r (sort srs)

pub data RangeError : Type 0 where
  inverted negative_start last_before_first outside overlapping : RangeError

abbrev pub Result {ℓ} : Type ℓ → Type ℓ
Result A = Outcome RangeError A

-- `NewTracker`.
unfoldable pub new_tracker : ℤ → ℤ → Result Tracker
new_tracker (pos start) (pos end) =
    if ltb end start
    then err inverted
    else ok (record {
      start = start;
      end = end;
      wm = record { lo = minus_one; mid = minus_one; hi = minus_one };
      sub_ranges = [];
    })
new_tracker start end = if ltz end start then err inverted else err negative_start

-- A sub-range that an added one is found to overlap.
abbrev pub collides : SubRange → ℕ → ℕ → Bool
collides sr first last =
    (leb sr.first first && leb first sr.last) || (leb sr.first last && leb last sr.last)

unfoldable pub any_collides : List SubRange → ℕ → ℕ → Bool
any_collides [] first last = false
any_collides (sr ∷ srs) first last =
    let rest = any_collides srs first last in if collides sr first last then true else rest

unfoldable pub record_sub_range : Tracker → ℕ → ℕ → Result Tracker
unfolding any_collides update sort
record_sub_range rt first last =
    if any_collides rt.sub_ranges first last
    then err overlapping
    else (let srs = sort (rt.sub_ranges ++ (record { first = first; last = last } ∷ [])) in
        ok (record rt { sub_ranges = srs; wm = update rt.start srs }))

-- `AddSubRange`. Where the first index is negative, it is less than the start.
unfoldable pub add_sub_range : Tracker → ℤ → ℤ → Result Tracker
unfolding record_sub_range
add_sub_range rt (pos first) (pos last) =
    if ltb last first
    then err last_before_first
    else if ltb first rt.start || ltb rt.end last
    then err outside
    else record_sub_range rt first last
add_sub_range rt first last = if ltz last first then err last_before_first else err outside

-- `IsPartiallyComplete`.
unfoldable pub is_partially_complete : Tracker → Bool
is_partially_complete rt = if ltz rt.wm.mid (pos 0) then false else true

-- `IsComplete`.
unfoldable pub is_complete : Tracker → Bool
unfolding is_partially_complete
is_complete rt = is_partially_complete rt && eqz rt.wm.mid rt.wm.hi && eqz rt.wm.hi (pos rt.end)

-- `PartiallyCompleteUpto`.
unfoldable pub partially_complete_upto : Tracker → ℤ
partially_complete_upto rt = rt.wm.mid

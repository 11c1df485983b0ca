-- ===== src/Ranges/Tests.antt =====
-- ingestor/ranges/tracker.go: runs on concrete sub-ranges, and the theorems on them.
use certificate_transparency.Prelude.{◌≡◌, refl, true, [], ◌∷◌, arith}
use certificate_transparency.Prelude.Outcome.{ok, err}
use certificate_transparency.Prelude.Int.{pos}
use certificate_transparency.Ranges.Tracker.{
  SubRange, Tracker, minus_one, update, new_tracker, add_sub_range, is_complete, overlapping,
}
use certificate_transparency.Ranges.Coverage.{Covered, Reached, created, added}
use certificate_transparency.Ranges.Invariant.{is_complete-Covered}
use certificate_transparency.Ranges.Complete.{chain-is_complete, containing_accepted}

abbrev upper : SubRange
upper = record { first = 50; last = 99 }

abbrev lower : SubRange
lower = record { first = 0; last = 49 }

abbrev empty : Tracker
empty = record {
  start = 0;
  end = 99;
  wm = record { lo = minus_one; mid = minus_one; hi = minus_one };
  sub_ranges = [];
}

abbrev half : Tracker
half = record {
  start = 0;
  end = 99;
  wm = record { lo = pos 50; mid = minus_one; hi = pos 99 };
  sub_ranges = upper ∷ [];
}

abbrev whole : Tracker
whole = record {
  start = 0;
  end = 99;
  wm = record { lo = pos 0; mid = pos 99; hi = pos 99 };
  sub_ranges = lower ∷ upper ∷ [];
}

add_upper : add_sub_range empty (pos 50) (pos 99) ≡ ok half
unfolding add_sub_range
add_upper = refl

add_lower : add_sub_range half (pos 0) (pos 49) ≡ ok whole
unfolding add_sub_range
add_lower = refl

add_again : add_sub_range whole (pos 10) (pos 12) ≡ err overlapping
unfolding add_sub_range
add_again = refl

empty-Reached : Reached empty
unfolding new_tracker
empty-Reached = created (pos 0) (pos 99) empty refl

half-Reached : Reached half
half-Reached = added empty half (pos 50) (pos 99) empty-Reached add_upper

whole-Reached : Reached whole
whole-Reached = added half whole (pos 0) (pos 49) half-Reached add_lower

is_complete-Covered_example : Covered 49 (lower ∷ upper ∷ [])
unfolding is_complete
is_complete-Covered_example =
    is_complete-Covered whole 49 whole-Reached refl (omega arith) (omega arith)

chain-is_complete_example : is_complete whole ≡ true
chain-is_complete_example =
    chain-is_complete whole whole-Reached (refl, omega arith, (refl, omega arith, refl))
      (omega arith)

abbrev middle : Tracker
middle = record {
  start = 0;
  end = 99;
  wm = record { lo = pos 50; mid = minus_one; hi = pos 59 };
  sub_ranges = record { first = 50; last = 59 } ∷ [];
}

containing_accepted_example :
    add_sub_range middle (pos 40) (pos 69)
    ≡ ok (record middle {
      sub_ranges = record { first = 40; last = 69 } ∷ record { first = 50; last = 59 } ∷ [];
      wm = update 0 (record { first = 40; last = 69 } ∷ record { first = 50; last = 59 } ∷ []);
    })
containing_accepted_example =
    containing_accepted middle 50 59 40 69 refl (omega arith) (omega arith) (omega arith)
      (omega arith) (omega arith)

-- ===== src/Scanner/Ranges.antt =====
-- scanner/fetcher.go: steps of the generator of ranges.
use certificate_transparency.Prelude.{
  ℕ, ◌+◌, ◌-◌, ◌≡◌, ◌≤◌, ◌<◌, refl, subst, ◌∙◌, Bool, true, false, List, All, ◌==◌, arith,
}
use certificate_transparency.Prelude.Int.{pos}
use certificate_transparency.Prelude.Int64.{sub64}
use certificate_transparency.Scanner.Generator.{Turn, Standing, finished, Generated, hand_out, halt}
use certificate_transparency.Scanner.Consecutive.{IsConsecutive, IsSmall}

-- What the generator handed out from `start` on, where it knew of a tree of size `end`.
pub record IsHanded (continuous : Bool) (batch start end : ℕ) (g : Generated) : Type 0 where
  pub reached : ℕ
  pub size : ℕ
  pub is_reached : g.next ≡ pos reached
  pub is_size : g.end ≡ pos size
  pub within : reached ≤ size
  pub grows : end ≤ size
  pub fixed : continuous ≡ false → size ≡ end
  pub consecutive : IsConsecutive batch start reached g.ranges
  pub finishes : g.standing ≡ finished → (continuous ≡ false) × (reached ≡ size)

-- The turns' trees have sizes of an int64.
abbrev pub IsBounded : List Turn → Type 0
IsBounded turns = All (λ t. All IsSmall t.attempts) turns

module _ (continuous : Bool) (batch : ℕ) where
  pub halt-IsHanded :
      (start end : ℕ) (standing : Standing)
      → start ≤ end
      → (standing ≡ finished → (continuous ≡ false) × (start ≡ end))
      → IsHanded continuous batch start end (halt (pos start) (pos end) standing)
  halt-IsHanded start end standing ordered stands = record {
    reached = start;
    size = end;
    is_reached = refl;
    is_size = refl;
    within = ordered;
    grows = omega arith;
    fixed = λ _. refl;
    consecutive = refl;
    finishes = stands;
  }

  pub hand_out-IsHanded :
      (start next end : ℕ) (g : Generated)
      → start < next
      → next ≤ start + batch
      → sub64 (pos next) (pos 1) ≡ pos (next - 1)
      → IsHanded continuous batch next end g
      → IsHanded continuous batch start end (hand_out (pos start) (pos next) g)
  hand_out-IsHanded start next end g progress sized before h = record {
    reached = h.reached;
    size = h.size;
    is_reached = h.is_reached;
    is_size = h.is_size;
    within = h.within;
    grows = h.grows;
    fixed = h.fixed;
    consecutive = (
      next - 1,
      refl,
      before,
      omega arith,
      omega arith,
      subst (λ (k : ℕ). IsConsecutive batch k h.reached g.ranges) (omega arith) h.consecutive,
    );
    finishes = h.finishes;
  }

  pub grown-IsHanded :
      (start end end' : ℕ) (g : Generated)
      → end ≤ end'
      → (continuous ≡ false → end' ≡ end)
      → IsHanded continuous batch start end' g
      → IsHanded continuous batch start end g
  grown-IsHanded start end end' g grown same h = record {
    reached = h.reached;
    size = h.size;
    is_reached = h.is_reached;
    is_size = h.is_size;
    within = h.within;
    grows = omega (arith, h.grows);
    fixed = λ c. h.fixed c ∙ same c;
    consecutive = h.consecutive;
    finishes = h.finishes;
  }

pub not_equal : (m n : ℕ) → m < n → (m == n) ≡ false
not_equal m n h = ground arith

pub equal : (m : ℕ) → (m == m) ≡ true
equal m = ground arith

-- ===== src/Ctfe/Backends.antt =====
-- trillian/ctfe/config.go: what holds of a map of backends that is built.
use certificate_transparency.Prelude.{
  ◌≡◌, inl, inr, refl, ap, sym, ◌∙◌, Bool, true, false, not, List, [], ◌∷◌, Option, none, some,
  Bool-cases, true-ne_false, All, if◌then◌else◌,
}
use certificate_transparency.Prelude.Outcome.{ok, err, ok_inj, err-ne_ok}
use certificate_transparency.Prelude.Text.{Text, text_eq, Map, lookup, insert}
use certificate_transparency.Submission.State.{has_text}
use certificate_transparency.Submission.Keys.{text_eq→eq, lookup-insert, lookup-insert_other}
use certificate_transparency.Ctfe.Config.{ConfigError, Result}
use certificate_transparency.Ctfe.MultiConfig.{
  LogBackend, is_empty, is_some, add_backends, build_log_backend_map,
}
use certificate_transparency.Ctfe.Distinct.{IsNew, IsOnce, texts-IsOnce}

-- What two tests in a row let through.
pub two_passed :
    {A : Type 0} (a b : Bool) (r : Result A) (x : A) (e1 e2 : ConfigError)
    → (if a then err e1 else if b then err e2 else r) ≡ ok x
    → (a ≡ false) × (b ≡ false) × (r ≡ ok x)
two_passed true b r x e1 e2 h = absurd (err-ne_ok h)
two_passed false true r x e1 e2 h = absurd (err-ne_ok h)
two_passed false false r x e1 e2 h = (refl, refl, h)

pub some_of : {A : Type 0} (o : Option A) → not (is_some o) ≡ false → (a : A) × (o ≡ some a)
some_of none h = absurd (true-ne_false refl h)
some_of (some a) h = (a, refl)

abbrev pub names : List LogBackend → List Text
names [] = []
names (b ∷ bs) = b.name ∷ names bs

abbrev pub specs : List LogBackend → List Text
specs [] = []
specs (b ∷ bs) = b.backend_spec ∷ specs bs

-- The backends have names and specifications, no name and no specification is there twice, and the
-- map has each backend under its name.
abbrev pub AreBackends : List LogBackend → Map LogBackend → Type 0
AreBackends backends m =
    All
      (λ (b : LogBackend).
        (is_empty b.name ≡ false) × (is_empty b.backend_spec ≡ false) × (lookup b.name m ≡ some b))
      backends
    × IsOnce has_text (names backends)
    × IsOnce has_text (specs backends)

-- The names so far are the keys of the map so far.
abbrev pub IsKeyed : List Text → Map LogBackend → Type 0
IsKeyed before lbm = (n : Text) → has_text n before ≡ is_some (lookup n lbm)

pub insert-IsKeyed :
    (before : List Text) (lbm : Map LogBackend) (k : Text) (v : LogBackend)
    → IsKeyed before lbm
    → IsKeyed (k ∷ before) (insert k v lbm)
unfolding has_text
insert-IsKeyed before lbm k v keyed n = elim (Bool-cases (text_eq k n)) [
  | inl same ↦ rw same (
      sym (
        ap is_some (
          ap (λ (j : Text). lookup j (insert k v lbm)) (sym (text_eq→eq k n same))
          ∙ lookup-insert k v lbm)))
  | inr apart ↦ rw apart (keyed n ∙ sym (ap is_some (lookup-insert_other n k v lbm apart)))
]

pub insert-kept :
    (lbm : Map LogBackend) (k n : Text) (v w : LogBackend)
    → is_some (lookup k lbm) ≡ false
    → lookup n lbm ≡ some w
    → lookup n (insert k v lbm) ≡ some w
insert-kept lbm k n v w absent found = elim (Bool-cases (text_eq k n)) [
  | inr apart ↦ lookup-insert_other n k v lbm apart ∙ found
  | inl same ↦ absurd (
      true-ne_false (ap is_some (ap (λ (j : Text). lookup j lbm) (text_eq→eq k n same) ∙ found))
        absent)
]

-- What four tests in a row let through.
pub four_passed :
    {A : Type 0} (a b c d : Bool) (r : Result A) (x : A) (e1 e2 e3 e4 : ConfigError)
    → (if a then err e1 else if b then err e2 else if c then err e3 else if d then err e4 else r)
      ≡ ok x
    → (a ≡ false) × (b ≡ false) × (c ≡ false) × (d ≡ false) × (r ≡ ok x)
four_passed a b c d r x e1 e2 e3 e4 h =
    let (pa, pb, h1) = two_passed a b _ x e1 e2 h in
    let (pc, pd, h2) = two_passed c d r x e3 e4 h1 in (pa, pb, pc, pd, h2)

pub record IsBuilt (lbm m : Map LogBackend) (before seen : List Text) (bes : List LogBackend)
    : Type 0 where
  kept : (n : Text) (v : LogBackend) → lookup n lbm ≡ some v → lookup n m ≡ some v
  all :
      All
        (λ (b : LogBackend).
          (is_empty b.name ≡ false)
          × (is_empty b.backend_spec ≡ false)
          × (lookup b.name m ≡ some b))
        bes
  new_names : IsNew has_text before (names bes)
  new_specs : IsNew has_text seen (specs bes)

pub add_backends-IsBuilt :
    (lbm m : Map LogBackend) (before seen : List Text) (bes : List LogBackend)
    → IsKeyed before lbm
    → add_backends lbm seen bes ≡ ok m
    → IsBuilt lbm m before seen bes
unfolding add_backends
add_backends-IsBuilt lbm m before seen [] keyed h = record {
  kept = λ n v found. ap (lookup n) (sym (ok_inj h)) ∙ found;
  all = tt;
  new_names = tt;
  new_specs = tt;
}
add_backends-IsBuilt lbm m before seen (b ∷ bs) keyed h =
    let (named, specified, fresh, unseen, h1) =
      four_passed (is_empty b.name) (is_empty b.backend_spec) (is_some (lookup b.name lbm))
        (has_text b.backend_spec seen)
        (add_backends (insert b.name b lbm) (b.backend_spec ∷ seen) bs) m _ _ _ _ h in
    let k =
      add_backends-IsBuilt (insert b.name b lbm) m (b.name ∷ before) (b.backend_spec ∷ seen) bs
        (insert-IsKeyed before lbm b.name b keyed) h1 in
    record {
      kept = λ n v found. k.kept n v (insert-kept lbm b.name n b v fresh found);
      all = ((named, specified, k.kept b.name b (lookup-insert b.name b lbm)), k.all);
      new_names = (keyed b.name ∙ fresh, k.new_names);
      new_specs = (unseen, k.new_specs);
    }

pub build_log_backend_map-AreBackends :
    (bes : List LogBackend) (m : Map LogBackend)
    → build_log_backend_map bes ≡ ok m
    → AreBackends bes m
unfolding build_log_backend_map lookup has_text
build_log_backend_map-AreBackends bes m h =
    let k = add_backends-IsBuilt [] m [] [] bes (λ n. refl) h in
    (k.all, texts-IsOnce (names bes) k.new_names, texts-IsOnce (specs bes) k.new_specs)

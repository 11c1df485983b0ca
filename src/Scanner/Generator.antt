-- ===== src/Scanner/Generator.antt =====
-- scanner/fetcher.go: FetcherOptions, Prepare, updateSTH and genRanges.
use certificate_transparency.Prelude.{
  ℕ, ◌+◌, ◌%◌, ◌^◌, Bool, not, ◌&&◌, ◌||◌, List, [], ◌∷◌, Option, none, some, ltb, leb,
  if◌then◌else◌,
}
use certificate_transparency.Prelude.Int.{ℤ, pos, ltz, eqz}
use certificate_transparency.Prelude.Int64.{add64, sub64, int64_of, uint64_of}

-- The fields that are read here: ParallelFetch is the number of workers.
pub record FetcherOptions : Type 0 where
  pub batch_size : ℤ
  pub start_index : ℤ
  pub end_index : ℤ
  pub continuous : Bool

-- Both ends belong to the range.
pub record FetchRange : Type 0 where
  pub start : ℤ
  pub end : ℤ

-- What the fetcher keeps: of the STH only its size is read.
pub record Fetcher : Type 0 where
  pub sth : Option ℕ
  pub opts : FetcherOptions

-- `Prepare`, where the answer to GetSTH is an error or the size of a tree.
unfoldable pub prepare : Fetcher → Option ℕ → Option ℕ × Fetcher
prepare f answer = elim f.sth [
  | some size ↦ (some size, f)
  | none ↦ elim answer [
    | none ↦ (none, f)
    | some tree_size ↦
        let size = int64_of tree_size in
        let reset = eqz f.opts.end_index (pos 0) || ltz size f.opts.end_index in
        (
          some tree_size,
          record {
            sth = some tree_size;
            opts = if reset then record f.opts { end_index = size } else f.opts;
          },
        )
  ]
]

-- One call of the function that `updateSTH` retries: the answer to GetSTH, and whether it comes
-- before the quick deadline.
pub record Attempt : Type 0 where
  pub answer : Option ℕ
  pub quick : Bool

abbrev is_wanted : ℕ → ℕ → ℕ → Bool → Bool
is_wanted last_size target_size size quick =
    not (leb size last_size || (quick && ltb size target_size))

-- The retry loop. An attempt with too small a tree is made again; after one that fails, Retry goes
-- on or not, as `retries_errors` says. It gives up when the context is cancelled, after the last
-- attempt.
unfoldable pub retry_sth : Bool → ℕ → ℕ → List Attempt → Option ℕ
retry_sth retries_errors last_size target_size [] = none
retry_sth retries_errors last_size target_size (a ∷ attempts) =
    let rest = retry_sth retries_errors last_size target_size attempts in
    elim a.answer [
      | none ↦ if retries_errors then rest else none
      | some size ↦ if is_wanted last_size target_size size a.quick then some size else rest
    ]

-- `updateSTH`: the new EndIndex, or an error.
unfoldable pub update_sth : Bool → ℤ → ℤ → List Attempt → Option ℤ
unfolding retry_sth
update_sth retries_errors batch end attempts =
    let last_size = uint64_of end in
    let target_size = (last_size + uint64_of batch) % 2 ^ 64 in
    elim (retry_sth retries_errors last_size target_size attempts) [
      | none ↦ none
      | some size ↦ some (int64_of size)
    ]

-- What happens in one turn of the generator: the attempts that updateSTH makes, where it is called,
-- and whether the context is done when a worker could take the range.
pub record Turn : Type 0 where
  pub attempts : List Attempt
  pub is_cancelled : Bool

-- How the generator stands: it has handed out all ranges, it was stopped, or it is at work.
pub data Standing : Type 0 where
  finished stopped running : Standing

pub record Generated : Type 0 where
  pub ranges : List FetchRange
  pub next : ℤ
  pub end : ℤ
  pub standing : Standing

abbrev minz : ℤ → ℤ → ℤ
minz a b = if ltz a b then a else b

-- The end of the next batch.
unfoldable pub batch_end : ℤ → ℤ → ℤ → ℤ
batch_end batch start end = add64 start (minz (sub64 end start) batch)

abbrev pub hand_out : ℤ → ℤ → Generated → Generated
hand_out start next g = record g {
  ranges = record { start = start; end = sub64 next (pos 1) } ∷ g.ranges;
}

abbrev pub halt : ℤ → ℤ → Standing → Generated
halt start end standing = record { ranges = []; next = start; end = end; standing = standing }

-- The loop of `genRanges`, for a number of turns.
unfoldable pub gen_ranges : Bool → Bool → ℤ → List Turn → ℤ → ℤ → Generated
unfolding batch_end update_sth
gen_ranges retries_errors continuous batch [] start end =
    halt start end (if ltz start end || continuous then running else finished)
gen_ranges retries_errors continuous batch (t ∷ turns) start end =
    if not (ltz start end || continuous)
    then halt start end finished
    else elim (if eqz start end then update_sth retries_errors batch end t.attempts else some end) [
      | none ↦ halt start end stopped
      | some end' ↦
          if t.is_cancelled
          then halt start end' stopped
          else hand_out start (batch_end batch start end')
              (gen_ranges retries_errors continuous batch turns (batch_end batch start end') end')
    ]

-- The generator that `Run` starts, on the options that `Prepare` left.
unfoldable pub generator : Bool → FetcherOptions → List Turn → Generated
unfolding gen_ranges
generator retries_errors opts turns =
    gen_ranges retries_errors opts.continuous opts.batch_size turns opts.start_index opts.end_index

-- ===== src/Program/Buckets.antt =====
-- `avgBucketSize` of cmd/server/main.go: statistics of the bucket files. `filepath.Walk` gives the
-- entries that it visits as a list; the square root is a parameter, with its argument as a fraction.
pub mod Counts
use migp.Base.{
  ℕ, ◌+◌, ◌*◌, ◌/◌, Bool, ◌&&◌, not, Bytes, List, [], ◌∷◌, ◌==◌, length, map, true, false, take,
  bytes_eq, codes, ltb, if◌then◌else◌,
}
use migp.Base.Int.{ℤ, pos_part, neg_part, sub_ℕ}
use migp.Base.Outcome.{Outcome, ok, err, panic, ◌>>=◌, ◌>>◌, file_error, panic_if}
use migp.Store.{load_bucket, existing}
use migp.Store.Files.{FileSystem, raw}

-- What the function of `filepath.Walk` is called with.
pub record Visit : Type 0 where
  pub path : Bytes
  pub name : Bytes
  pub is_dir : Bool
  -- There was no error on the way.
  pub fine : Bool

-- `!info.IsDir() && info.Name()[0:1] != "."`; the name is not empty.
abbrev pub is_visible_file : Visit → Bool
is_visible_file v = not v.is_dir && not (bytes_eq (take 1 v.name) (codes "."))

module _ (fs : FileSystem) (disk : fs.State) where
  -- The contents that are not empty of the files that the walk shows; an error ends the program. The
  -- error of `LoadBucket` is ignored.
  unfoldable pub visited_buckets : List Visit → Outcome (List Bytes)
  unfolding load_bucket
  visited_buckets [] = ok []
  visited_buckets (v ∷ visits) = elim v.fine [
    | false ↦ err file_error
    | true ↦ elim (is_visible_file v) [
      | false ↦ visited_buckets visits
      | true ↦
          let bucket = existing fs (load_bucket fs disk v.path raw) in
          elim (ltb 0 (length bucket)) [
            | false ↦ visited_buckets visits
            | true ↦ visited_buckets visits >>= λ buckets. ok (bucket ∷ buckets)
          ]
    ]
  ]

pub record Statistics : Type 0 where
  pub num_of_buckets : ℕ
  pub num_cred : ℕ
  pub avg : ℕ
  pub std : ℕ

abbrev pub sum : List ℕ → ℕ
sum [] = 0
sum (n ∷ ns) = n + sum ns

-- `len(bucket)/25`, and the square of its distance from the average
abbrev pub size_of : Bytes → ℕ
size_of bucket = length bucket / 25

abbrev pub square : ℤ → ℕ
square d = (pos_part d + neg_part d) * (pos_part d + neg_part d)

-- The sums of the walk, the division, which panics without a bucket, and the loops behind it.
unfoldable pub statistics : (ℕ → ℕ → ℕ) → List Bytes → Outcome Statistics
statistics root_of_ratio buckets = do
  let num_of_buckets = length buckets
  let num_cred = sum (map length buckets) / 25
  panic_if (num_of_buckets == 0)
  let avg = num_cred / num_of_buckets
  let squares = sum (map (λ b. square (sub_ℕ (size_of b) avg)) buckets)
  ok (record {
    num_of_buckets = num_of_buckets;
    num_cred = num_cred;
    avg = avg;
    std = root_of_ratio squares num_of_buckets;
  })

unfoldable pub avg_bucket_size :
    (fs : FileSystem) → fs.State → (ℕ → ℕ → ℕ) → List Visit → Outcome Statistics
unfolding visited_buckets statistics
avg_bucket_size fs disk root_of_ratio visits =
    visited_buckets fs disk visits >>= statistics root_of_ratio

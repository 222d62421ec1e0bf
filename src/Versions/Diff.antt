-- ===== src/Versions/Diff.antt =====
-- `compute_chunk_diff` and `next_version_no`.
use flavor_rag.Prelude.{
  ℕ, String, List, [], ◌∷◌, not, ◌<◌, ◌+◌, max, filter, length, in_list, All, arith,
}

pub record DiffSummary : Type 0 where
  pub added : List String
  pub removed : List String
  pub modified : List (String × String)

unfoldable pub total_changes : DiffSummary → ℕ
total_changes d = length d.added + length d.removed + length d.modified

unfoldable pub compute_chunk_diff : List String → List String → DiffSummary
compute_chunk_diff old_hashes new_hashes = record {
  added = filter (λ h. not (in_list h old_hashes)) new_hashes;
  removed = filter (λ h. not (in_list h new_hashes)) old_hashes;
  modified = [];
}

abbrev pub max_of : List ℕ → ℕ
max_of [] = 0
max_of (n ∷ ns) = max n (max_of ns)

unfoldable pub next_version_no : List ℕ → ℕ
next_version_no [] = 1
next_version_no (n ∷ ns) = max_of (n ∷ ns) + 1

-- The next version has a higher number than every version there is.
pub next_version_no-lt : (versions : List ℕ) → All (λ v. v < next_version_no versions) versions
unfolding next_version_no
next_version_no-lt [] = tt
next_version_no-lt (n ∷ ns) = (omega arith, below ns (max_of (n ∷ ns) + 1) (omega arith))
  where
    below : (xs : List ℕ) (m : ℕ) → max_of xs < m → All (λ v. v < m) xs
    below [] m h = tt
    below (x ∷ xs) m h = (omega arith, below xs m (omega arith))

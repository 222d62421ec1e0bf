-- ===== src/Versions/Tests.antt =====
-- Differences between short lists of hashes.
use flavor_rag.Prelude.{String, List, [], ◌∷◌, ◌≡◌, refl}
use flavor_rag.Versions.Diff.{compute_chunk_diff}

abbrev old : List String
old = "a" ∷ "b" ∷ []

abbrev new : List String
new = "b" ∷ "c" ∷ []

diff_added : (compute_chunk_diff old new).added ≡ "c" ∷ []
unfolding compute_chunk_diff
diff_added = refl

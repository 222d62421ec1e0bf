-- ===== src/Chunker/Typed/Merging.antt =====
-- `_pack_chunks` and `_merge_buffer`.
use flavor_rag.Chunker.Chars.{one_of}
use flavor_rag.Prelude.{
  is_nil, ℕ, List, Bool, Option, none, some, true, if◌then◌else◌, ◌&&◌, ◌||◌, not, leb, ltb, [],
  ◌∷◌, ◌++◌, length, map, any, all, eqb, same_text,
}
use flavor_rag.Prelude.Sort.{sum_by}
use flavor_rag.Chunker.Structure.Blocks.{BlockKind, heading, code, atomic, para, table, list, image}
use flavor_rag.Chunker.Typed.Patterns.{join}
use flavor_rag.Chunker.Typed.Parts.{BlockAwareOptions, TypedChunk}

abbrev pub kind_code : BlockKind → ℕ
kind_code heading = 0
kind_code code = 1
kind_code atomic = 2
kind_code para = 3
kind_code table = 4
kind_code list = 5
kind_code image = 6

-- `block_type in self._MERGEABLE_TYPES`
unfoldable pub is_mergeable : Option BlockKind → Bool
is_mergeable none = true
is_mergeable (some kind) = one_of (kind_code kind) (3 ∷ 5 ∷ 6 ∷ [])

-- The longest path that begins both paths.
unfoldable pub common_prefix : List (List ℕ) → List (List ℕ) → List (List ℕ)
common_prefix [] q = []
common_prefix (a ∷ p) [] = []
common_prefix (a ∷ p) (b ∷ q) = if same_text a b then a ∷ common_prefix p q else []

abbrev pub common_path : List (List ℕ) → List TypedChunk → List (List ℕ)
common_path path [] = path
common_path path (b ∷ buf) = common_path (common_prefix path b.outline_path) buf

abbrev pub has_kind : BlockKind → Option BlockKind → Bool
has_kind k none = true
has_kind k (some l) = eqb (kind_code k) (kind_code l)

-- The one block type of the chunks that have one; "PARAGRAPH" unless there is exactly one.
abbrev pub only_kind : List TypedChunk → BlockKind
only_kind [] = para
only_kind (b ∷ buf) = elim b.block_type [
  | none ↦ only_kind buf
  | some k ↦ if all (λ d. has_kind k d.block_type) buf then k else para
]

-- `b.embedding_text or b.content`
abbrev pub embedded : TypedChunk → List ℕ
embedded b = if is_nil b.embedding_text then b.content else b.embedding_text

unfoldable pub merge_buffer : TypedChunk → List TypedChunk → TypedChunk
unfolding common_prefix join
merge_buffer first [] = first
merge_buffer first (b ∷ rest) =
    let buf = first ∷ b ∷ rest in
    let separator = 10 ∷ 10 ∷ [] in
    let some_embedding = any (λ c. not (is_nil c.embedding_text)) buf in
    record {
      content = join separator (map (λ c. c.content) buf);
      chunk_index = 0;
      block_type = some (only_kind buf);
      embedding_text = if some_embedding then join separator (map embedded buf) else [];
      outline_path = common_path first.outline_path (b ∷ rest);
    }

-- The merged buffer, if there is anything in it.
abbrev pub flush_buffer : List TypedChunk → List TypedChunk
flush_buffer [] = []
flush_buffer (b ∷ buffer) = merge_buffer b buffer ∷ []

abbrev pub content_size : TypedChunk → ℕ
content_size c = length c.content

-- One round of the loop: what is packed, and the buffer after it.
unfoldable pub pack_step :
    BlockAwareOptions → List TypedChunk → TypedChunk → List TypedChunk × List TypedChunk
unfolding is_mergeable
pack_step options buffer c =
    let more = buffer ++ c ∷ [] in
    let combined = sum_by content_size more in
    if not (is_mergeable c.block_type)
    then (flush_buffer buffer ++ c ∷ [], [])
    else if ltb (length c.content) options.min_chars && not (is_nil buffer)
    then (if leb options.min_chars combined || ltb options.max_chars combined
        then (flush_buffer more, [])
        else ([], more))
    else if ltb (length c.content) options.min_chars
    then ([], c ∷ [])
    else (flush_buffer buffer ++ c ∷ [], [])

unfoldable pub pack_from : BlockAwareOptions → List TypedChunk → List TypedChunk → List TypedChunk
unfolding pack_step
pack_from options buffer [] = flush_buffer buffer
pack_from options buffer (c ∷ chunks) =
    let (packed, left) = pack_step options buffer c in packed ++ pack_from options left chunks

unfoldable pub pack_chunks : BlockAwareOptions → List TypedChunk → List TypedChunk
unfolding pack_from
pack_chunks options chunks = if leb (length chunks) 1 then chunks else pack_from options [] chunks

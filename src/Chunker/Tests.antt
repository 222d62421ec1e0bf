-- ===== src/Chunker/Tests.antt =====
-- Runs of the chunker on short texts.
use flavor_rag.Prelude.{
  ℕ, suc, zero, List, none, some, true, false, ◌||◌, ◌≡◌, [], ◌∷◌, get_elem?, Member, arith, refl,
  ◌<◌,
}
use flavor_rag.Prelude.Int.{pos}
use flavor_rag.Chunker.Chars.{CharTests, between, one_of, char_is}
use flavor_rag.Chunker.Fixed.{
  Window, ChunkRecord, windows, window_end, next_start, adjust_to_boundary, look_back,
}
use flavor_rag.Chunker.Windows.{Tiles, windows_lem}
use flavor_rag.Chunker.Normalize.{
  scan, normalize_text, fixed_chunk, looks_like_url_start, should_join_broken_url,
  is_list_item_start, round, url_space, scan_spaces, is_url_char, is_common_url_punct,
  is_cjk_word_char,
}
use flavor_rag.Chunker.Stuck.{Broken, in_url_at, scan-Broken}
use flavor_rag.Chunker.Plain.{NoUrl, fixed_chunk-NoUrl}

abbrev ascii : CharTests
ascii = record {
  isspace = λ c. one_of c (32 ∷ 9 ∷ 10 ∷ 13 ∷ []);
  isalpha = λ c. between 65 90 c || between 97 122 c;
  isdigit = λ c. between 48 57 c;
  isdecimal = λ c. between 48 57 c;
}

-- "ab. cd", cut into windows of 5 that overlap by 2.
abbrev short : List ℕ
short = 97 ∷ 98 ∷ 46 ∷ 32 ∷ 99 ∷ 100 ∷ []

abbrev smaller : 2 < 5
smaller = omega arith

windows-short :
    windows ascii short 5 2 6 0 none
    ≡ some (record { start = 0; end = 5 } ∷ record { start = 3; end = 6 } ∷ [])
unfolding windows window_end next_start adjust_to_boundary look_back char_is
windows-short = refl

windows_lem_example :
    (ws : List Window) × (windows ascii short 5 2 6 0 none ≡ some ws)
    × Tiles ascii short 5 2 smaller 0 0 ws
windows_lem_example = windows_lem ascii short 5 2 smaller (omega arith)

-- "http://a/", a line break, and "b".
abbrev broken_url : List ℕ
broken_url = 104 ∷ 116 ∷ 116 ∷ 112 ∷ 58 ∷ 47 ∷ 47 ∷ 97 ∷ 47 ∷ 10 ∷ 98 ∷ []

joined : should_join_broken_url ascii (some 47) (some 98) (98 ∷ []) ≡ true
unfolding should_join_broken_url is_list_item_start
joined = refl

abbrev at_break : Broken ascii broken_url 9
at_break = record {
  after = [];
  next = 98;
  here = refl;
  breaks = refl;
  goes_on = refl;
  joins = joined;
}

scan-Broken_example : scan ascii 1000 broken_url (in_url_at ascii broken_url 9 []) ≡ none
scan-Broken_example = scan-Broken ascii broken_url 1000 9 [] at_break

-- A space after a URL is doubled: "http://a b" becomes "http://a  b".
doubles_space :
    normalize_text ascii 20 (104 ∷ 116 ∷ 116 ∷ 112 ∷ 58 ∷ 47 ∷ 47 ∷ 97 ∷ 32 ∷ 98 ∷ [])
    ≡ some (104 ∷ 116 ∷ 116 ∷ 112 ∷ 58 ∷ 47 ∷ 47 ∷ 97 ∷ 32 ∷ 32 ∷ 98 ∷ [])
unfolding normalize_text scan round url_space scan_spaces should_join_broken_url is_list_item_start
    is_url_char is_common_url_punct is_cjk_word_char looks_like_url_start
doubles_space = refl

-- Two ideographs with a line break between them.
abbrev wrapped : List ℕ
wrapped = 0x4E00 ∷ 10 ∷ 0x4E8C ∷ []

wrapped_plain : NoUrl wrapped
unfolding looks_like_url_start
wrapped_plain zero = refl
wrapped_plain (suc zero) = refl
wrapped_plain (suc (suc zero)) = refl
wrapped_plain (suc (suc (suc zero))) = refl
wrapped_plain (suc (suc (suc (suc i)))) = refl

fixed_chunk-NoUrl_example :
    (out : List ChunkRecord) × (fixed_chunk ascii 4 (pos 2) (pos 1) wrapped ≡ some out)
    × ((c : ℕ)
        → Member c wrapped
        → ascii.isspace c ≡ false
        → (r : ChunkRecord) × Member r out × ((k : ℕ) × (get_elem? r.content k ≡ some c)))
fixed_chunk-NoUrl_example = fixed_chunk-NoUrl ascii 2 (pos 1) wrapped refl refl wrapped_plain

-- ===== src/Config/RoundTrip.antt =====
-- A printed configuration, loaded by comm/config.cpp.
use mathlib.Core.List.{append_assoc, append-nil}
use cnode.Prelude.{
  ℕ, ◌≡◌, ◌≢◌, refl, sym, ap, ◌∙◌, true, List, [], ◌∷◌, ◌++◌, none, some, arith, Every,
  Every-append, ◌+◌, ◌≤◌, length, length-append,
}
use cnode.Prelude.Int.{pos}
use cnode.Prelude.Bytes.{Bytes}
use cnode.StrParse.{all_of}
use cnode.Config.{Entry, Config, Loading, next, thrown, load_line, load_lines, load, cut, max_line}
use cnode.Config.Clean.{
  is_plain_value, is_plain_key, pair_line, section_head, IsCleanPair, all_of-append, all_of-weaken,
  load_line-head, load_line-clean, load_line-unended,
}
use cnode.Config.Lines.{is_inside, IsLine, joined, cut-joined, cut_end}

-- Pairs, and sections of pairs, as lines.
unfoldable pub pair_lines : List (Bytes × Bytes) → List Bytes
pair_lines [] = []
pair_lines (kv ∷ kvs) = pair_line kv ∷ pair_lines kvs

unfoldable pub print : List (Bytes × List (Bytes × Bytes)) → List Bytes
unfolding pair_lines
print [] = []
print ((item, kvs) ∷ sections) = section_head item ∷ (pair_lines kvs ++ print sections)

unfoldable pub pair_entries : Bytes → List (Bytes × Bytes) → List Entry
pair_entries item [] = []
pair_entries item ((k, v) ∷ kvs) =
    record { item = item; key = k; value = v } ∷ pair_entries item kvs

unfoldable pub entries_of : List (Bytes × List (Bytes × Bytes)) → List Entry
unfolding pair_entries
entries_of [] = []
entries_of ((item, kvs) ∷ sections) = pair_entries item kvs ++ entries_of sections

-- The lines fit the buffer of `load`, and a section's name is within one.
abbrev pub HasFit : List (Bytes × List (Bytes × Bytes)) → Type 0
HasFit [] = Unit {0}
HasFit ((item, kvs) ∷ sections) =
    (all_of is_inside item ≡ true)
    × (length item + 3 ≤ max_line)
    × Every (λ kv. length kv.0 + length kv.1 + 2 ≤ max_line) kvs
    × HasFit sections

abbrev pub IsClean : List (Bytes × List (Bytes × Bytes)) → Type 0
IsClean [] = Unit {0}
IsClean ((item, kvs) ∷ sections) = Every IsCleanPair kvs × IsClean sections

load_lines-next :
    (line : Bytes) (lines : List Bytes) (l k : Loading)
    → load_line line l ≡ next k
    → load_lines (line ∷ lines) l ≡ load_lines lines k
unfolding load_lines
load_lines-next line lines l k e = rw (e, load_lines) refl

load_lines-pairs :
    (kvs : List (Bytes × Bytes)) (rest : List Bytes) (item : Bytes) (es : List Entry)
    → Every IsCleanPair kvs
    → load_lines (pair_lines kvs ++ rest) (record { str_item = item; entries = es })
      ≡ load_lines rest (record { str_item = item; entries = es ++ pair_entries item kvs })
unfolding pair_lines pair_entries
load_lines-pairs [] rest item es h =
    ap (λ t. load_lines rest (record { str_item = item; entries = t })) (sym (append-nil es))
load_lines-pairs ((k, v) ∷ kvs) rest item es h =
    let e : Entry = record { item = item; key = k; value = v } in
    let l : Loading = record { str_item = item; entries = es } in
    load_lines-next (pair_line (k, v)) (pair_lines kvs ++ rest) l _ (load_line-clean k v l h.0)
    ∙ load_lines-pairs kvs rest item (es ++ e ∷ []) h.1
    ∙ ap (λ t. load_lines rest (record { str_item = item; entries = t }))
        (append_assoc es (e ∷ []) (pair_entries item kvs))

load_lines-print :
    (sections : List (Bytes × List (Bytes × Bytes))) (rest : List Bytes) (item : Bytes)
    (es : List Entry)
    → IsClean sections
    → (last : Bytes) × (load_lines
          (print sections ++ rest)
          (record { str_item = item; entries = es })
        ≡ load_lines rest (record { str_item = last; entries = es ++ entries_of sections }))
unfolding print entries_of
load_lines-print [] rest item es h = (
  item,
  ap (λ t. load_lines rest (record { str_item = item; entries = t })) (sym (append-nil es)),
)
load_lines-print ((name, kvs) ∷ sections) rest item es h =
    let l : Loading = record { str_item = item; entries = es } in
    let k : Loading = record { str_item = name; entries = es } in
    let (last, e) = load_lines-print sections rest name (es ++ pair_entries name kvs) h.1 in
    (
      last,
      load_lines-next (section_head name) ((pair_lines kvs ++ print sections) ++ rest) l k
            (load_line-head name l)
          ∙ ap (λ t. load_lines t k) (append_assoc (pair_lines kvs) (print sections) rest)
          ∙ load_lines-pairs kvs (print sections ++ rest) name es h.0
          ∙ e
          ∙ ap (λ t. load_lines rest (record { str_item = last; entries = t }))
              (append_assoc es (pair_entries name kvs) (entries_of sections)),
    )

key-is_inside : (c : ℕ) → is_plain_value c ≡ true → is_inside c ≡ true
key-is_inside c h = ground arith

-- A text of two parts around a byte, as a line.
pair_text-IsLine :
    (a b : Bytes) (c : ℕ)
    → all_of is_inside a ≡ true
    → all_of is_inside b ≡ true
    → is_inside c ≡ true
    → length a + length b + 2 ≤ max_line
    → IsLine (a ++ (c ∷ (b ++ b'\n' ∷ [])))
unfolding all_of
pair_text-IsLine a b c h k i l = record {
  text = a ++ (c ∷ b);
  ended = sym (append_assoc a (c ∷ b) (b'\n' ∷ []));
  inside = all_of-append is_inside a (c ∷ b) ∙ ground (arith, h, k, i);
  fits = omega (arith, l, length-append a (c ∷ b));
}

pair_lines-IsLine :
    (kvs : List (Bytes × Bytes))
    → Every IsCleanPair kvs
    → Every (λ kv. length kv.0 + length kv.1 + 2 ≤ max_line) kvs
    → Every IsLine (pair_lines kvs)
unfolding pair_lines
pair_lines-IsLine [] c l = tt
pair_lines-IsLine ((k, v) ∷ kvs) c l = (
  pair_text-IsLine k v b'='
      (all_of-weaken is_plain_key is_inside k (λ d x. key-is_inside d (ground (arith, x))) c.0.2)
      (all_of-weaken is_plain_value is_inside v key-is_inside c.0.3) refl l.0,
  pair_lines-IsLine kvs c.1 l.1,
)

print-IsLine :
    (sections : List (Bytes × List (Bytes × Bytes)))
    → IsClean sections
    → HasFit sections
    → Every IsLine (print sections)
unfolding print all_of
print-IsLine [] c l = tt
print-IsLine ((item, kvs) ∷ sections) c l = (
  pair_text-IsLine (b'[' ∷ item) [] b']' (ground (arith, l.0)) refl refl (omega (arith, l.1)),
  Every-append IsLine (pair_lines kvs) (print sections) (pair_lines-IsLine kvs c.0 l.2)
      (print-IsLine sections c.1 l.3),
)

cut-print :
    (sections : List (Bytes × List (Bytes × Bytes))) (s : Bytes)
    → IsClean sections
    → HasFit sections
    → cut max_line (joined (print sections) ++ s) ≡ print sections ++ cut max_line s
cut-print sections s c l = cut-joined (print sections) s (print-IsLine sections c l)

abbrev begin : Loading
begin = record { str_item = []; entries = [] }

cut-nil : cut max_line [] ≡ []
unfolding cut
cut-nil = refl

load_lines-end : (l : Loading) → load_lines [] l ≡ (l.entries, next l)
unfolding load_lines
load_lines-end l = refl

load_lines-thrown :
    (line : Bytes) (l : Loading)
    → load_line line l ≡ thrown
    → load_lines (line ∷ []) l ≡ (l.entries, thrown)
unfolding load_lines
load_lines-thrown line l e = rw (e, load_lines) refl

load-next :
    (path text : Bytes) (conf : Config) (l : Loading)
    → load_lines (cut max_line text) begin ≡ (l.entries, next l)
    → load (some path) (some text) conf
      ≡ (record { path = some path; lst_config = l.entries }, some (pos 0))
unfolding load
load-next path text conf l e = ground (arith, e)

load-thrown :
    (path text : Bytes) (conf : Config) {es : List Entry}
    → load_lines (cut max_line text) begin ≡ (es, thrown)
    → (load (some path) (some text) conf).1 ≡ none
unfolding load
load-thrown path text conf e = ground (arith, e)

-- A configuration that is printed loads with code 0, whatever the object held: its list is that of
-- the printed sections in order. Each printed line fits the buffer of `fgets`, the name of a section
-- holds no line's end, keys and values are not empty and hold no space, `#` or `[`, and a key no `=`.
pub load-print :
    (sections : List (Bytes × List (Bytes × Bytes))) (path : Bytes) (conf : Config)
    → IsClean sections
    → HasFit sections
    → load (some path) (some (joined (print sections))) conf
      ≡ (record { path = some path; lst_config = entries_of sections }, some (pos 0))
load-print sections path conf h l =
    let (last, e) = load_lines-print sections [] [] [] h in
    let c : cut max_line (joined (print sections)) ≡ print sections ++ [] =
      ap (cut max_line) (sym (append-nil (joined (print sections))))
      ∙ cut-print sections [] h l
      ∙ ap (◌++◌ (print sections)) cut-nil in
    let done : Loading = record { str_item = last; entries = entries_of sections } in
    load-next path (joined (print sections)) conf done
      (ap (λ t. load_lines t begin) c ∙ e ∙ load_lines-end done)

append-ne-nil : (a : Bytes) (c : ℕ) (b : Bytes) → a ++ (c ∷ b) ≢ []
append-ne-nil [] c b = λ e. cc
append-ne-nil (d ∷ a) c b = λ e. cc

-- The same file with one more pair whose line has no end, as the last line of a file may: an
-- exception leaves `load`.
pub load-unended :
    (sections : List (Bytes × List (Bytes × Bytes))) (k v path : Bytes) (conf : Config)
    → IsClean sections
    → HasFit sections
    → IsCleanPair (k, v)
    → length k + length v + 2 ≤ max_line
    → (load (some path) (some (joined (print sections) ++ (k ++ (b'=' ∷ v)))) conf).1 ≡ none
unfolding all_of
load-unended sections k v path conf h f c l =
    let (last, e) = load_lines-print sections ((k ++ (b'=' ∷ v)) ∷ []) [] [] h in
    let u = load_line-unended k v (record { str_item = last; entries = entries_of sections }) c in
    let inside : all_of is_inside (k ++ (b'=' ∷ v)) ≡ true =
      all_of-append is_inside k (b'=' ∷ v)
      ∙ ground (
        arith,
        all_of-weaken is_plain_key is_inside k (λ d x. key-is_inside d (ground (arith, x))) c.2,
        all_of-weaken is_plain_value is_inside v key-is_inside c.3,
      ) in
    let one : cut max_line (k ++ (b'=' ∷ v)) ≡ (k ++ (b'=' ∷ v)) ∷ [] =
      cut_end (k ++ (b'=' ∷ v)) max_line (append-ne-nil k b'=' v) inside
        (omega (arith, l, length-append k (b'=' ∷ v))) in
    let w = cut-print sections (k ++ (b'=' ∷ v)) h f ∙ ap (◌++◌ (print sections)) one in
    load-thrown path (joined (print sections) ++ (k ++ (b'=' ∷ v))) conf
      (ap (λ t. load_lines t begin) w ∙ e ∙ load_lines-thrown (k ++ (b'=' ∷ v)) _ u)

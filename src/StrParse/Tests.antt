-- ===== src/StrParse/Tests.antt =====
-- Runs of comm/strparse.cpp on small inputs, and its theorems at such inputs.
use cnode.Prelude.{◌≡◌, refl, true, false, List, [], ◌∷◌, some, arith}
use cnode.Prelude.Int.{pos, negsuc}
use cnode.Prelude.Bytes.{to_lower, Bytes, codes, assign, eq_bytes, find_from}
use cnode.StrParse.{
  splite_str, splite_int, splite_query_string, find_key, pick_one_json, pick_lower, pick_from,
  value_after, adjust_path, is_character, is_numberic, find_first_of, atoi,
}
use cnode.StrParse.QueryString.{print, assign_all, splite_query_string-print}
use cnode.StrParse.Json.{document, pick_one_json-document}

split_commas : splite_str [] (codes "a,,b,") b',' ≡ codes "a" ∷ [] ∷ codes "b," ∷ []
unfolding splite_str
split_commas = refl

split_numbers : splite_int [] (codes "12,,-7") b',' (pos 5) ≡ pos 12 ∷ pos 5 ∷ negsuc 6 ∷ []
unfolding splite_int splite_str atoi
split_numbers = refl

query : splite_query_string [] (codes "a=1&b=&a=2") ≡ (codes "a", codes "2") ∷ (codes "b", []) ∷ []
unfolding splite_query_string assign eq_bytes
query = refl

pick_plain : pick_one_json (codes "{ \"x_id\":1, \"_ID\" : 5aB}") (codes "_id") ≡ some (codes "5ab")
unfolding pick_one_json pick_lower pick_from value_after to_lower find_key find_from find_first_of
pick_plain = refl

checks :
    (is_character (codes "aZ9") false ≡ false)
    × (is_character (codes "aZ9") true ≡ true)
    × (is_numberic (codes "0123") ≡ true)
    × (adjust_path (codes "/a") true b'/' ≡ some (codes "/a/"))
unfolding is_character is_numberic adjust_path
checks = (refl, refl, refl, refl)

abbrev pairs : List (Bytes × Bytes)
pairs = (codes "k", codes "1=2") ∷ (codes "&", []) ∷ (codes "k", codes "3") ∷ []

splite_query_string-print_example : splite_query_string [] (print pairs) ≡ assign_all [] pairs
splite_query_string-print_example = splite_query_string-print [] pairs (ground arith)

pick_one_json-document_example :
    pick_one_json (document (codes "_id") (codes "5Af") (codes " }")) (codes "_id")
    ≡ some (codes "5af")
unfolding to_lower
pick_one_json-document_example =
    pick_one_json-document (codes "_id") (codes "5Af") (codes " }")
      ((λ e. omega (arith, e)), (λ e. omega (arith, e))) refl
      (refl, refl, (refl, refl, (refl, refl, tt)))

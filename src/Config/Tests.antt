-- ===== src/Config/Tests.antt =====
-- Runs of comm/config.cpp and comm/bmsh_config.cpp, and the theorems at such inputs.
use cnode.Prelude.{◌≡◌, refl, List, [], ◌∷◌, ◌++◌, none, some, arith}
use cnode.Prelude.Int.{pos, negsuc}
use cnode.Prelude.Bytes.{Bytes, codes, eq_bytes}
use cnode.StrParse.{all_of}
use cnode.Config.{Config, load, str_conf, int_conf, int_of, find_entry}
use cnode.Config.{scan_digits}
use cnode.Config.Lines.{joined}
use cnode.Config.RoundTrip.{pair_entries, print, entries_of, load-print, load-unended}

abbrev old : Config
old = record { path = none; lst_config = [] }

abbrev sections : List (Bytes × List (Bytes × Bytes))
sections =
    (codes "common", (codes "port", codes "6001") ∷ (codes "logpath", codes "/a=b") ∷ [])
    ∷ (codes "node", (codes "hostid", codes "010") ∷ [])
    ∷ []

load-print_example :
    load (some (codes "c.conf")) (some (joined (print sections))) old
    ≡ (record { path = some (codes "c.conf"); lst_config = entries_of sections }, some (pos 0))
unfolding all_of
load-print_example = load-print sections (codes "c.conf") old (ground arith) (ground arith)

load-unended_example :
    (load
      (some (codes "c.conf"))
      (some (joined (print sections) ++ (codes "a" ++ (b'=' ∷ codes "1"))))
      old).1
    ≡ none
unfolding all_of
load-unended_example =
    load-unended sections (codes "a") (codes "1") (codes "c.conf") old (ground arith) (ground arith)
      (ground arith) (omega arith)

abbrev loaded : Config
loaded = record { path = none; lst_config = entries_of sections }

port : int_conf loaded (codes "common") (codes "port") (pos 1) ≡ some (pos 6001)
unfolding int_conf find_entry eq_bytes pair_entries entries_of scan_digits
port = refl

octal : int_conf loaded (codes "node") (codes "hostid") (negsuc 0) ≡ some (pos 8)
unfolding int_conf find_entry eq_bytes pair_entries entries_of scan_digits
octal = refl

unset : int_of (codes "no") ≡ none
unfolding int_of scan_digits
unset = refl

defaulted :
    str_conf loaded (codes "common") (codes "redispool") (codes "qlyredis") ≡ codes "qlyredis"
unfolding str_conf find_entry eq_bytes pair_entries entries_of scan_digits
defaulted = refl

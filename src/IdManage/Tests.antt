-- ===== src/IdManage/Tests.antt =====
-- Ids of idmanage.cpp, and its theorems at such ids.
use cnode.Prelude.{◌+◌, ◌≡◌, refl, some, arith}
use cnode.Prelude.Int.{pos}
use cnode.Prelude.Bytes.{codes}
use cnode.IdManage.{ShmData, get_object_id, format_id, print_hex, print_host, hex_char}
use cnode.IdManage.Unique.{format_id-injective}

abbrev shm : ShmData
shm = record { ver = 1; hostid = 5; addsum = 1000; num = 255 }

made :
    get_object_id (some shm)
    ≡ (some (record shm { num = 256; addsum = 0 }), pos 0, codes "10005", some 256)
unfolding get_object_id format_id print_hex print_host hex_char
made = refl

format_id-injective_example : (256 ≡ shm.num + 1) × (shm.hostid ≡ shm.hostid)
format_id-injective_example =
    format_id-injective 256 5 (255 + 1) 5 (omega arith) (omega arith) (omega arith) (omega arith)
      refl

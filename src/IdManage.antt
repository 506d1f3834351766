-- ===== src/IdManage.antt =====
-- idmanage.h and idmanage.cpp: `IdMgr`, which makes ids from a number in shared memory. The numbers
-- are those of `long long` and `int` below 2^63 and 2^31.
pub mod Unique
mod Tests
use cnode.Prelude.{
  ℕ, zero, suc, ◌+◌, ◌-◌, ◌*◌, ◌/◌, ◌%◌, Bool, true, false, List, [], ◌∷◌, ◌++◌, Option, none, some,
  ltb, if◌then◌else◌,
}
use cnode.Prelude.Int.{ℤ, pos, negsuc}
use cnode.Prelude.Bytes.{Bytes}

-- `ShmData`.
pub record ShmData : Type 0 where
  pub ver : ℕ
  pub hostid : ℕ
  pub addsum : ℕ
  pub num : ℕ

abbrev pub numtoflush : ℕ
numtoflush = 1000

abbrev pub shmdata_version : ℕ
shmdata_version = 1

-- The end of `init`: `first` is whether it made the shared memory.
unfoldable pub init_shm : (first : Bool) (hostid : ℕ) → ShmData → ShmData
init_shm first hostid shm =
    if first
    then record shm { ver = shmdata_version; hostid = hostid; num = 0 }
    else record shm { hostid = hostid }

unfoldable pub hex_char : ℕ → ℕ
hex_char n = if ltb n 10 then b'0' + n else b'a' + (n - 10)

-- `%llx`, of as many digits as `fuel` at most.
unfoldable pub print_hex : (fuel n : ℕ) → Bytes
unfolding hex_char
print_hex zero n = []
print_hex (suc fuel) n =
    let front = print_hex fuel (n / 16) in
    if ltb n 16 then hex_char n ∷ [] else front ++ hex_char (n % 16) ∷ []

-- `%02x`, of a host id below 2^16.
unfoldable pub print_host : ℕ → Bytes
unfolding print_hex hex_char
print_host n = if ltb n 16 then b'0' ∷ hex_char n ∷ [] else print_hex 4 n

-- `snprintf` of "%llx%02x"; 16 digits hold a `long long`.
unfoldable pub format_id : (num hostid : ℕ) → Bytes
unfolding print_hex print_host
format_id num hostid = print_hex 16 num ++ print_host hostid

-- `getObjectId` without shared memory, `none`, returns -1; the last part is what it flushes.
unfoldable pub get_object_id : Option ShmData → Option ShmData × ℤ × Bytes × Option ℕ
unfolding format_id
get_object_id none = (none, negsuc 0, [], none)
get_object_id (some shm) =
    let num = shm.num + 1 in
    let addsum = shm.addsum + 1 in
    let full = ltb numtoflush addsum in
    (
      some (record shm { num = num; addsum = if full then 0 else addsum }),
      pos 0,
      format_id num shm.hostid,
      if full then some num else none,
    )

unfoldable pub jump_object_count : ℕ → Option ShmData → Option ShmData × ℤ
jump_object_count jmpn none = (none, negsuc 0)
jump_object_count jmpn (some shm) = (some (record shm { num = shm.num + jmpn }), pos 0)

-- ===== src/ThreadData.antt =====
-- threaddata.h, threaddata.cpp and the parts of dealbase.cpp and server.cpp that share its state:
-- `ThreadData`, the handlers of one event thread. An address stands for a handler; the heap says
-- of each handler that was made and not deleted whether its `m_tdata` is set. `none` is the use of
-- a pointer that is null or whose handler was deleted.
pub mod Heap
pub mod Lifetime
pub mod Deleted
pub mod Wakeup
pub mod Resumed
mod Tests
use cnode.Prelude.{
  ℕ, zero, suc, ◌+◌, Bool, true, false, List, [], ◌∷◌, ◌++◌, Option, none, some, ◌==◌,
  if◌then◌else◌, map, take, drop,
}

pub record ThreadData : Type 0 where
  pub dealing : List (ℕ × ℕ)
  pub rmdeal : List ℕ
  pub resume : List ℕ
  pub asyn_timer : Bool
  pub pipe : List ℕ
  pub heap : List (ℕ × Bool)

abbrev pub new_thread : ThreadData
new_thread = record {
  dealing = [];
  rmdeal = [];
  resume = [];
  asyn_timer = false;
  pipe = [];
  heap = [];
}

-- `dealing[ptr] = time`.
unfoldable pub put_key : ℕ → ℕ → List (ℕ × ℕ) → List (ℕ × ℕ)
put_key ptr time [] = (ptr, time) ∷ []
put_key ptr time ((p, t) ∷ rest) =
    let later = put_key ptr time rest in if p == ptr then (ptr, time) ∷ rest else (p, t) ∷ later

-- `dealing.erase(ptr)`.
unfoldable pub erase_key : ℕ → List (ℕ × ℕ) → List (ℕ × ℕ)
erase_key ptr [] = []
erase_key ptr ((p, t) ∷ rest) =
    let later = erase_key ptr rest in if p == ptr then rest else (p, t) ∷ later

unfoldable pub push_deal : ℕ → ℕ → ThreadData → ThreadData
unfolding put_key
push_deal ptr time td = record td { dealing = put_key ptr time td.dealing }

unfoldable pub remove_deal : ℕ → Bool → ThreadData → ThreadData
unfolding erase_key
remove_deal ptr add2rm td = record td {
  dealing = erase_key ptr td.dealing;
  rmdeal = if add2rm then td.rmdeal ++ ptr ∷ [] else td.rmdeal;
}

-- `delete`, of a handler that is there.
unfoldable pub erase_heap : ℕ → List (ℕ × Bool) → Option (List (ℕ × Bool))
erase_heap ptr [] = none
erase_heap ptr ((p, b) ∷ rest) = elim (p == ptr) [
  | true ↦ some rest
  | false ↦ elim (erase_heap ptr rest) [ none ↦ none | some h ↦ some ((p, b) ∷ h) ]
]

-- `m_tdata` of a handler.
unfoldable pub tdata_of : ℕ → List (ℕ × Bool) → Option Bool
tdata_of ptr [] = none
tdata_of ptr ((p, b) ∷ rest) = let later = tdata_of ptr rest in if p == ptr then some b else later

-- `m_tdata = NULL`.
unfoldable pub clear_tdata : ℕ → List (ℕ × Bool) → List (ℕ × Bool)
clear_tdata ptr [] = []
clear_tdata ptr ((p, b) ∷ rest) =
    let later = clear_tdata ptr rest in if p == ptr then (p, false) ∷ rest else (p, b) ∷ later

-- A loop of `delete`.
unfoldable pub delete_all : List ℕ → List (ℕ × Bool) → Option (List (ℕ × Bool))
unfolding erase_heap
delete_all [] heap = some heap
delete_all (p ∷ ps) heap = elim (erase_heap p heap) [ none ↦ none | some h ↦ delete_all ps h ]

unfoldable pub del_dealer : ThreadData → Option ThreadData
unfolding delete_all
del_dealer td = elim (delete_all td.rmdeal td.heap) [
  | none ↦ none
  | some h ↦ some (record td { heap = h; rmdeal = [] })
]

abbrev pub keys : List (ℕ × ℕ) → List ℕ
keys [] = []
keys ((p, t) ∷ rest) = p ∷ keys rest

unfoldable pub delete_dealing : ThreadData → Option ThreadData
unfolding delete_all
delete_dealing td = elim (delete_all (keys td.dealing) td.heap) [
  | none ↦ none
  | some h ↦ some (record td { heap = h; dealing = [] })
]

unfoldable pub del_all_dealer : ThreadData → Option ThreadData
unfolding del_dealer delete_dealing
del_all_dealer td = elim (del_dealer td) [ none ↦ none | some t ↦ delete_dealing t ]

-- `new` of a handler, with the constructor `DealBase`.
unfoldable pub deal_base : ℕ → ℕ → ThreadData → ThreadData
unfolding push_deal
deal_base ptr time td = push_deal ptr time (record td { heap = (ptr, true) ∷ td.heap })

unfoldable pub post_delete_me : ℕ → ThreadData → Option ThreadData
unfolding remove_deal clear_tdata tdata_of
post_delete_me ptr td = elim (tdata_of ptr td.heap) [
  | some true ↦
      some (record (remove_deal ptr true td) { asyn_timer = true; heap = clear_tdata ptr td.heap })
  | some false ↦ none
  | none ↦ none
]

unfoldable pub force_delete_of : ℕ → ThreadData → Option ThreadData
unfolding remove_deal erase_heap tdata_of
force_delete_of ptr td = elim (tdata_of ptr td.heap) [
  | some true ↦ elim (erase_heap ptr td.heap) [
    | none ↦ none
    | some h ↦ some (record (remove_deal ptr false td) { heap = h })
  ]
  | some false ↦ none
  | none ↦ none
]

-- `ForceDelete` of a pointer that may be null.
unfoldable pub force_delete : Option ℕ → ThreadData → Option ThreadData
unfolding force_delete_of
force_delete none td = some td
force_delete (some ptr) td = force_delete_of ptr td

-- `AsynDelTimerCB`.
unfoldable pub asyn_del_timer : ThreadData → Option ThreadData
unfolding del_dealer
asyn_del_timer td = elim (del_dealer td) [
  | none ↦ none
  | some t ↦ some (record t { asyn_timer = false })
]

unfoldable pub push_resume : ℕ → ThreadData → ThreadData
push_resume ptr td = record td { resume = td.resume ++ ptr ∷ [] }

unfoldable pub pop_resume : ThreadData → ThreadData × Option ℕ
pop_resume td = elim td.resume [
  | [] ↦ (td, none)
  | ptr ∷ rest ↦ (record td { resume = rest }, some ptr)
]

-- The second half of `postResume`.
unfoldable pub write_pipe : ThreadData → ThreadData
write_pipe td = record td { pipe = td.pipe ++ b'r' ∷ [] }

-- `read` at the head of `PipeNotifyCB`: 64 bytes at most.
unfoldable pub read_pipe : ThreadData → ThreadData × List ℕ
read_pipe td = (record td { pipe = drop 64 td.pipe }, take 64 td.pipe)

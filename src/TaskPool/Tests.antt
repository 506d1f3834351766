-- ===== src/TaskPool/Tests.antt =====
-- Runs of `TaskPool` of comm/taskpool.cpp, and its theorems at such runs.
use cnode.Prelude.{ℕ, true, false, [], ◌∷◌}
use cnode.Prelude.Int.{pos}
use cnode.Queue.{Timeval, Queue}
use cnode.TaskPool.{TaskPool, Create, returned, appending, counting, looping, holding, ended}
use cnode.TaskPool.Threads.{System, idle, joining}

abbrev now : Timeval
now = record { tv_sec = 5; tv_usec = 0 }

abbrev empty : Queue ℕ
empty = record { list = []; dely_task = []; near_time = now; list_max_size = 10000 }

abbrev pool : TaskPool ℕ
pool = record { tasks = empty; tid = empty; threadcount = 1; exit = false }

abbrev create : Create
create = record { result = 0; new_tid = 40 }

abbrev queued : System ℕ
queued = record {
  pool = record {
    tasks = record empty { list = 7 ∷ [] };
    tid = record empty { list = [] };
    threadcount = 1;
    exit = false;
  };
  workers = [];
  calls = counting ∷ [];
  ender = idle;
  accepted = 7 ∷ [];
  ran = [];
  dropped = [];
}

abbrev running : System ℕ
running = record {
  pool = record {
    tasks = record empty { list = 7 ∷ [] };
    tid = record empty { list = 40 ∷ [] };
    threadcount = 1;
    exit = false;
  };
  workers = looping ∷ [];
  calls = returned (pos 0) ∷ [];
  ender = idle;
  accepted = 7 ∷ [];
  ran = [];
  dropped = [];
}

abbrev holds : System ℕ
holds = record {
  pool = record {
    tasks = record empty { list = [] };
    tid = record empty { list = 40 ∷ [] };
    threadcount = 1;
    exit = true;
  };
  workers = holding 7 ∷ [];
  calls = appending 8 0 ∷ returned (pos 0) ∷ [];
  ender = joining;
  accepted = 7 ∷ [];
  ran = [];
  dropped = [];
}

abbrev joined : System ℕ
joined = record {
  pool = record {
    tasks = record empty { list = [] };
    tid = record empty { list = [] };
    threadcount = 1;
    exit = true;
  };
  workers = ended ∷ [];
  calls = appending 8 0 ∷ returned (pos 0) ∷ [];
  ender = joining;
  accepted = 7 ∷ [];
  ran = [];
  dropped = 7 ∷ [];
}

-- Two calls of `addTask`; the first starts a thread, which takes its task and leaves it, since `unInit`
-- has begun. The second call passed its tests before and queues its task after the last `each`.
abbrev stranded : System ℕ
stranded = record {
  pool = record {
    tasks = record empty { list = 8 ∷ [] };
    tid = record empty { list = [] };
    threadcount = 1;
    exit = true;
  };
  workers = ended ∷ [];
  calls = counting ∷ returned (pos 0) ∷ [];
  ender = idle;
  accepted = 8 ∷ 7 ∷ [];
  ran = [];
  dropped = 7 ∷ [];
}

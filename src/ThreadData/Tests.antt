-- ===== src/ThreadData/Tests.antt =====
-- Runs of threaddata.cpp, dealbase.cpp and PipeNotifyCB, and the theorems at such inputs.
use cnode.Prelude.{◌≡◌, ◌≤◌, refl, true, false, [], ◌∷◌, none, some, arith}
use cnode.ThreadData.{
  ThreadData, new_thread, del_all_dealer, deal_base, post_delete_me, push_resume, pop_resume,
  write_pipe, read_pipe,
}
use cnode.ThreadData.Lifetime
use cnode.ThreadData.Deleted.{del_all_dealer-frees}
use cnode.ThreadData.Wakeup.{
  Wake, Reachable, start, next, posts, quiet, writes, idle, post, written, notified, looked,
  drained,
}
use cnode.ThreadData.Resumed.{IsSettled, Run, posted-resumed}

abbrev two_handlers : ThreadData
two_handlers = deal_base 8 101 (deal_base 7 100 new_thread)

abbrev one_posted : ThreadData
one_posted = record {
  dealing = (8, 101) ∷ [];
  rmdeal = 7 ∷ [];
  resume = [];
  asyn_timer = true;
  pipe = [];
  heap = (8, true) ∷ (7, false) ∷ [];
}

posts-first : post_delete_me 7 two_handlers ≡ some one_posted
unfolding deal_base post_delete_me
posts-first = refl

posts-twice : post_delete_me 7 one_posted ≡ none
unfolding post_delete_me
posts-twice = refl

two_handlers-Reachable : Lifetime.Reachable two_handlers
unfolding deal_base
two_handlers-Reachable =
    Lifetime.next _ _ (Lifetime.next _ _ Lifetime.start (Lifetime.made new_thread 7 100 refl))
      (Lifetime.made _ 8 101 refl)

one_posted-Reachable : Lifetime.Reachable one_posted
one_posted-Reachable =
    Lifetime.next _ _ two_handlers-Reachable (Lifetime.posted two_handlers one_posted 7 posts-first)

del_all_dealer-frees_example :
    del_all_dealer one_posted ≡ some (record one_posted { heap = []; rmdeal = []; dealing = [] })
del_all_dealer-frees_example = del_all_dealer-frees one_posted one_posted-Reachable

-- Two posts, of which one has written its byte, and the reader behind its call of `read`.
abbrev two_posts : Wake
two_posts = post 8 (written (post 7 idle))

two_posts-Reachable : Reachable two_posts
unfolding post written
two_posts-Reachable =
    next _ _
      (next _ _ (next _ _ start (posts idle 7)) (quiet _ _ (writes (post 7 idle) (omega arith))))
      (posts (written (post 7 idle)) 8)

one_writer : 1 ≤ two_posts.writers
unfolding post written
one_writer = omega arith

-- The reader resumes both for the first byte.
abbrev one_drained : Wake
one_drained = drained (pop_resume two_posts.td) (looked 114 [] (notified two_posts))

both : (drained (pop_resume one_drained.td) one_drained).resumed ≡ 7 ∷ 8 ∷ []
unfolding post written notified looked drained push_resume pop_resume write_pipe read_pipe
both = refl

abbrev two_written : Wake
two_written = written two_posts

posted-resumed_example :
    (u : Wake) × Run two_posts u × IsSettled u × (u.td.resume ≡ []) × (u.resumed ≡ 7 ∷ 8 ∷ [])
unfolding post written
posted-resumed_example = posted-resumed two_posts two_posts-Reachable

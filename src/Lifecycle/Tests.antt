-- ===== src/Lifecycle/Tests.antt =====
-- A join whose memberlist is created while the proxy closes.
use nirn_proxy.Lifecycle.{
  waiting, closed, System, begin_join, create, install, shut_candidate, clear_join, close,
  take_cluster, shut_cluster, joins, creates, installs, shuts, clears, closes, takes, leaves, Reach,
  here, next, start,
}
use nirn_proxy.Lifecycle.Shutdown.{none_alive_after_close}
use nirn_proxy.Base.{◌≡◌, refl, true, false, none}

abbrev created : System
created = create 0 true (begin_join 0 start)

abbrev closing : System
closing = take_cluster (close created)

abbrev given_up : System
given_up = clear_join 0 (shut_candidate 0 (install 0 closing))

abbrev finished : System
finished = shut_cluster none (take_cluster given_up)

alive_at_first : created.live 0 ≡ true
unfolding create
alive_at_first = refl

still_waiting : closing.closer ≡ waiting
unfolding create begin_join close take_cluster
still_waiting = refl

run : Reach start finished
unfolding create begin_join close take_cluster install shut_candidate clear_join
run =
    next
      (next
        (next
          (next
            (next
              (next (next (next (next here (joins 0 refl)) (creates 0 true refl)) (closes refl))
                (takes refl))
              (installs 0 refl))
            (shuts 0 refl))
          (clears 0 refl))
        (takes refl))
      (leaves none refl)

finished_closed : finished.closer ≡ closed
unfolding shut_cluster
finished_closed = refl

none_alive_after_close_example : (finished.live 0 ≡ false) × (finished.cluster ≡ none)
none_alive_after_close_example = none_alive_after_close 0 run finished_closed

-- ===== src/Tests/SystemRuns.antt =====
-- The theorems on the server's connections, its sessions and its media tokens, on streaming requests
-- and on the hub, at concrete values.
use hush_rs.Base.{ℕ, ◌+◌, ◌<◌, ◌≡◌, refl, inl, [], ◌∷◌, ◌++◌, arith, some, none, false, true}
use hush_rs.Std.Utf8.{ascii}
use hush_rs.Std.Eq.{nat_eq}
use hush_rs.Std.HashMap
use hush_rs.Session.Crypto.Toy.{toy}
use hush_rs.Session.Store
use hush_rs.Session.Store.{SessionStore, SessionConfig, default_config}
use hush_rs.Server.{Handlers, StreamHandler, stream}
use hush_rs.Server.Collect.{gc_loop, Leaves, gc_loop-collects}
use hush_rs.Server.Accept.{
  System, member, without, idle_system, accept, establish, accepts, establishes, Reach, start,
  later,
}
use hush_rs.Server.Accept.Apart.{Reach-IsApart}
use hush_rs.Server.Accept.Held.{Reach-HoldsOnly}
use hush_rs.Server.State.{
  Heap, write, Server, new_server, with_media, with_session_config, session_store,
  issue_media_token, has_session,
}
use hush_rs.Server.State.MediaSessions.{
  holds_later, holds_later-with_media, holds_later-with_session_config,
}
use hush_rs.Hub.{new_hub}
use hush_rs.Hub.Toy.{Channels, toy_channels, toy_channels-IsBroadcast}
use hush_rs.Hub.Delivery.{HasRoom}
use hush_rs.Tests.Samples.{no_stores, some_key, held, holding, held_found}

nobody-Leaves : Leaves 1 (λ i st. st)
nobody-Leaves = record { config = λ i st. refl; unique = λ i st u. u; found = λ i st. inl refl }

gc_loop-collects_example : Store.get 1 (gc_loop (λ i st. st) 1 60 18 holding) ≡ none
gc_loop-collects_example =
    gc_loop-collects 1 held (λ i st. st) nobody-Leaves 1 60 17 holding (tt, tt) held_found
      (omega arith)

-- Two connections, of which the first is established.
abbrev two_accepted : System
two_accepted = accept (accept (idle_system default_config))

abbrev one_running : System
one_running = establish 1 100 [] some_key two_accepted

first_starts : member 1 two_accepted.starting ≡ true
unfolding accept idle_system
first_starts = refl

one_running-Reach : Reach default_config 2 one_running
one_running-Reach =
    later (later (later start accepts) accepts) (establishes 1 100 [] some_key first_starts)

second_starts : member 2 one_running.starting ≡ true
unfolding accept idle_system establish
second_starts = refl

Reach-IsApart_example :
    (Store.get 2 one_running.sessions ≡ none)
    × (member 2 one_running.running ≡ false)
    × (member 2 (without 2 one_running.starting) ≡ false)
Reach-IsApart_example = Reach-IsApart 2 one_running-Reach (omega arith) second_starts

second_runs_not : member 2 one_running.running ≡ false
unfolding accept idle_system establish
second_runs_not = refl

Reach-HoldsOnly_example : Store.get 2 one_running.sessions ≡ none
Reach-HoldsOnly_example =
    Reach-HoldsOnly
      (later (later (later start accepts) accepts) (establishes 1 100 [] some_key first_starts)) tt
      2 second_runs_not

abbrev server : Server ℕ
server = (new_server toy (5 ∷ []) no_stores).0

abbrev heap : Heap
heap = (new_server {W = ℕ} toy (5 ∷ []) no_stores).1

holds_later-with_media_example :
    holds_later heap 50 (issue_media_token (9 ∷ []) 10 1 (ascii "t") (with_media server))
    ≡ has_session (session_store server heap) 1
holds_later-with_media_example =
    holds_later-with_media server heap (9 ∷ []) (ascii "t") 10 50 1 (omega arith)

heap_holds_server : server.sessions < heap.size
unfolding new_server
heap_holds_server = omega arith

holds_later-with_session_config_example :
    holds_later
      (write
        (with_session_config default_config (with_media server) heap).0.sessions
        holding
        (with_session_config default_config (with_media server) heap).1)
      50
      (issue_media_token
        (9 ∷ [])
        10
        1
        (ascii "t")
        (with_session_config default_config (with_media server) heap).0)
    ≡ has_session (session_store server heap) 1
holds_later-with_session_config_example =
    holds_later-with_session_config server heap default_config holding (9 ∷ []) (ascii "t") 10 50 1
      heap_holds_server (omega arith)

-- A handler that sends two bytes and counts.
abbrev ticking : StreamHandler ℕ
ticking req r w key n = (record w { outgoing = w.outgoing ++ (1 ∷ 2 ∷ []) }, n + 1)

abbrev streaming_table : Handlers ℕ
streaming_table = (0x0201, stream ticking) ∷ []

ticking_found : HashMap.get 0x0201 streaming_table ≡ some (stream ticking)
unfolding HashMap.get
ticking_found = refl

abbrev no_channels : Channels
no_channels = record { made = 0; rooms = λ i. 0; counts = λ i. 0; queues = λ i k. [] }

empty-HasRoom : HasRoom toy_channels toy_channels-IsBroadcast (new_hub toy_channels) no_channels
unfolding new_hub HashMap.get
empty-HasRoom topic tx e = cc

-- ===== src/Watch.antt =====
-- `all_agents_socks_full` and `not_all_agent_socks_full` of OriginalAgentCodeC/poll.c: which sockets
-- the transfer waits for while every parallel connection is full.
pub mod Rounds
pub mod Full
pub mod Resumed
use sosagent.Base.{ℕ, zero, suc, ◌==◌, if◌then◌else◌, length}
use sosagent.System.{client_event_pool, add, modify, delete, Env}
use sosagent.System.Outcome.{M, skip, ◌>>=◌, ◌>>◌}
use sosagent.System.Calls.{World, get, epoll_ctl}
use sosagent.Client.{Poll, off, in_only, out_only, in_and_out, Client}
use sosagent.Client.Access.{lane, set_host_fd_poll, set_agent_fd_poll}
use sosagent.Deliver.{readable, writable, both_ways}
use sosagent.Send.{watch_agent_output}

module _ {env : Env} where
  -- No more input from the host is wanted.
  unfoldable pub stop_host_input : Poll → M (World env (Client env.Table)) (Unit {0})
  stop_host_input in_and_out = do
    c ← get
    epoll_ctl client_event_pool (modify writable) c.host_sock
    set_host_fd_poll out_only
  stop_host_input in_only = do
    c ← get
    epoll_ctl client_event_pool delete c.host_sock
    set_host_fd_poll off
  stop_host_input p = skip

  -- The loop over the connections, from number `i` on: each is waited for until it can be written.
  unfoldable pub watch_all_from : ℕ → ℕ → M (World env (Client env.Table)) (Unit {0})
  watch_all_from zero i = skip
  watch_all_from (suc n) i = do
    l ← lane i
    watch_agent_output i l.agent_fd_poll
    watch_all_from n (suc i)

  unfoldable pub all_agents_socks_full : M (World env (Client env.Table)) (Unit {0})
  all_agents_socks_full = do
    c ← get
    stop_host_input c.host_fd_poll
    watch_all_from (length c.lanes) 0

  -- Input from the host is wanted again.
  unfoldable pub start_host_input : Poll → M (World env (Client env.Table)) (Unit {0})
  start_host_input out_only = do
    c ← get
    epoll_ctl client_event_pool (modify both_ways) c.host_sock
    set_host_fd_poll in_and_out
  start_host_input off = do
    c ← get
    epoll_ctl client_event_pool (add readable) c.host_sock
    set_host_fd_poll in_only
  start_host_input p = skip

  -- A connection with nothing to send is not waited for.
  unfoldable pub rest_agent : ℕ → Poll → M (World env (Client env.Table)) (Unit {0})
  rest_agent a in_and_out = do
    l ← lane a
    epoll_ctl client_event_pool (modify readable) l.agent_sock
    set_agent_fd_poll a in_only
  rest_agent a out_only = do
    l ← lane a
    epoll_ctl client_event_pool delete l.agent_sock
    set_agent_fd_poll a off
  rest_agent a p = skip

  unfoldable pub rest_all_from : ℕ → ℕ → M (World env (Client env.Table)) (Unit {0})
  rest_all_from zero i = skip
  rest_all_from (suc n) i = do
    l ← lane i
    if l.packet.host_packet_size == 0 then rest_agent i l.agent_fd_poll else skip
    rest_all_from n (suc i)

  unfoldable pub not_all_agent_socks_full : M (World env (Client env.Table)) (Unit {0})
  not_all_agent_socks_full = do
    c ← get
    start_host_input c.host_fd_poll
    rest_all_from (length c.lanes) 0

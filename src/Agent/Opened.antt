-- ===== src/Agent/Opened.antt =====
-- `connect_agent_side` (network.c): the sockets of a client's connections to another agent, in arrays
-- that have an entry for each connection of the options.
use sosagent.Base.{
  ℕ, zero, suc, ◌+◌, ◌≤◌, ◌<◌, ◌≡◌, ◌≢◌, refl, ap, sym, subst, ◌∙◌, ltb, ltb→lt, Bool, true, false,
  Option, none, some, List, length, get_elem?, set, length-set, get_elem?-set_self,
  get_elem?-set_ne, arith,
}
use native.Mathlib.Decide.{ℕ_discrete}
use sosagent.System.{event_pool, add}
use sosagent.System.Calls.{World}
use sosagent.System.Ends.{
  Ends, comes_back, gives_up, Ends-and_then, Ends-if_in_bounds, Ends-epoll_ctl_exactly,
}
use sosagent.Client.{off}
use sosagent.Deliver.{writable}
use sosagent.Watch.Rounds.{entry}
use sosagent.Agent.{Session}
use sosagent.Agent.Net.{tcp, Net, Agent}
use sosagent.Agent.Rules.{Ends-client, Ends-setnonblocking}
use sosagent.Agent.Accept.{
  is_tcp, connect_agent_with, connect_agent_round, connect_agent_from, connect_agent_side,
}

-- The client's arrays have at least `k` entries.
pub record Fits (s : Session) (k : ℕ) : Type 0 where
  pub socks : k ≤ length s.agent_sock
  pub events : k ≤ s.side_events
  pub polls : k ≤ length s.agent_fd_poll

-- From `k₀` on, the machine was asked for a socket, to make it non-blocking, to add it to the poll set
-- and to connect it to address `ip`, at the next port each time, as often as the index says, and the
-- sockets it handed over are the first entries of `socks`.
pub data Trail (net : Net) (ip socks : List ℕ) (k₀ : net.env.Kernel)
    : ℕ → net.env.Kernel → Type 0 where
  none_yet : Trail net ip socks k₀ 0 k₀
  one_more :
      {i : ℕ} {k : net.env.Kernel} (fd : ℕ)
      → Trail net ip socks k₀ i k
      → get_elem? socks i ≡ some fd
      → (net.socket_call k).0 ≡ some fd
      → Trail net ip socks k₀
          (suc i)
          (net.connect_call
            (net.env.ctl_call
              (net.nonblocking_call (net.socket_call k).1 fd).1
              event_pool
              (add writable)
              fd).1
            fd
            ip
            (9878 + i)).1

-- A write behind the entries.
Trail-set :
    (net : Net) (ip socks : List ℕ) (k₀ : net.env.Kernel) (at fd : ℕ) {i : ℕ} {k : net.env.Kernel}
    → i ≤ at
    → Trail net ip socks k₀ i k
    → Trail net ip (set socks at fd) k₀ i k
Trail-set net ip socks k₀ at fd less none_yet = none_yet
Trail-set net ip socks k₀ at fd less (one_more {i = j} fd' t there opened) =
    one_more fd' (Trail-set net ip socks k₀ at fd (omega (arith, less)) t)
      (get_elem?-set_ne socks at j fd (λ e. absurd (omega (arith, e, less))) ∙ there) opened

module _ (net : Net) (n : ℕ) (s : Session) (a₀ : Agent net.Index) (k₀ : net.env.Kernel) where
  -- Nothing has changed but client `n`.
  pub record Others (a : Agent net.Index) : Type 0 where
    pub clients_only : a ≡ record a₀ { clients = a.clients }
    pub other : (m : ℕ) → n ≢ m → get_elem? a.clients m ≡ get_elem? a₀.clients m

  -- The first `i` connections were opened, have their sockets in the array, and are marked OFF.
  pub record Opened (i : ℕ) (a : Agent net.Index) (k : net.env.Kernel) : Type 0 where
    pub others : Others a
    pub now : Session
    pub at : get_elem? a.clients n ≡ some now
    pub arrays_only :
        now ≡ record s { agent_sock = now.agent_sock; agent_fd_poll = now.agent_fd_poll }
    pub socks : length now.agent_sock ≡ length s.agent_sock
    pub polls : length now.agent_fd_poll ≡ length s.agent_fd_poll
    pub marked : (j : ℕ) → j < i → get_elem? now.agent_fd_poll j ≡ some off
    pub fits : Fits s i
    pub trail : Trail net s.agent_ip now.agent_sock k₀ i k

  Others-set :
      (a : Agent net.Index) (t : Session)
      → Others a
      → Others (record a { clients = set a.clients n t })
  Others-set a t h = record {
    clients_only =
        ap (λ (b : Agent net.Index). record b { clients = set a.clients n t }) h.clients_only;
    other = λ m q. get_elem?-set_ne a.clients n m t q ∙ h.other m q;
  }

  -- The entry of connection `i` is written.
  Opened-mark :
      (i : ℕ) (a : Agent net.Index) (k : net.env.Kernel) (o : Opened i a k) (fd : ℕ)
      → i < length s.agent_sock
      → i < s.side_events
      → i < length o.now.agent_fd_poll
      → (net.socket_call k).0 ≡ some fd
      → Opened
          (suc i)
          (record a {
            clients =
                set
                  (set a.clients n (record (o.now) { agent_sock = set o.now.agent_sock i fd }))
                  n
                  (record (o.now) {
                    agent_sock = set o.now.agent_sock i fd;
                    agent_fd_poll = set o.now.agent_fd_poll i off;
                  });
          })
          (net.connect_call
            (net.env.ctl_call
              (net.nonblocking_call (net.socket_call k).1 fd).1
              event_pool
              (add writable)
              fd).1
            fd
            o.now.agent_ip
            (9878 + i)).1
  Opened-mark i a k o fd sock event poll opened = record {
    others = Others-set _ _ (Others-set a _ o.others);
    now = record (o.now) {
      agent_sock = set o.now.agent_sock i fd;
      agent_fd_poll = set o.now.agent_fd_poll i off;
    };
    at = get_elem?-set_self _ n _ _ (get_elem?-set_self a.clients n _ o.now o.at);
    arrays_only =
        ap
          (λ (t : Session). record t {
            agent_sock = set o.now.agent_sock i fd;
            agent_fd_poll = set o.now.agent_fd_poll i off;
          })
          o.arrays_only;
    socks = length-set o.now.agent_sock i fd ∙ o.socks;
    polls = length-set o.now.agent_fd_poll i off ∙ o.polls;
    marked = λ j h. elim (ℕ_discrete i j) [
      | yes same ↦
          subst (λ m. get_elem? (set o.now.agent_fd_poll i off) m ≡ some off) same
            (get_elem?-set_self o.now.agent_fd_poll i off _ (entry o.now.agent_fd_poll i poll).1)
      | no other ↦
          get_elem?-set_ne o.now.agent_fd_poll i j off other ∙ o.marked j (omega (arith, other))
    ];
    fits = record { socks = sock; events = event; polls = omega (arith, o.polls) };
    trail =
        subst
          (λ ip.
            Trail net s.agent_ip (set o.now.agent_sock i fd) k₀ (suc i)
              (net.connect_call
                (net.env.ctl_call (net.nonblocking_call (net.socket_call k).1 fd).1 event_pool
                  (add writable) fd).1
                fd ip (9878 + i)).1)
          (ap (λ (t : Session). t.agent_ip) (sym o.arrays_only))
          (one_more fd (Trail-set net s.agent_ip o.now.agent_sock k₀ i fd (omega arith) o.trail)
            (get_elem?-set_self o.now.agent_sock i fd _
              (entry o.now.agent_sock i (omega (arith, sock, o.socks))).1)
            opened);
  }

  beyond : (i k : ℕ) {have want : ℕ} → ltb i have ≡ false → have ≡ want → k ≤ want → i < k → ⊥
  beyond i k q same enough less = ground arith

  -- One round opens connection `i`, where the arrays have an entry for it.
  connect_agent_with-Opened :
      (k i : ℕ) (r : Option ℕ) (w : World net.env (Agent net.Index))
      → (net.socket_call w.kernel).0 ≡ r
      → i < k
      → Opened i w.state w.kernel
      → Ends
          (λ _ w'. Opened (suc i) w'.state w'.kernel)
          (λ w'. Others w'.state)
          (¬ Fits s k)
          (connect_agent_with net r n i (record w { kernel = (net.socket_call w.kernel).1 }))
  unfolding connect_agent_with
  connect_agent_with-Opened k i none w said less o = rw o.at (
      Ends-if_in_bounds (ltb i (length o.now.agent_sock)) _ _ _
        (λ q fit. beyond i k q o.socks fit.socks less)
        (λ q. gives_up (Others-set w.state _ o.others)))
  connect_agent_with-Opened k i (some fd) w said less o = rw o.at (
      Ends-if_in_bounds (ltb i (length o.now.agent_sock)) _ _ _ (λ q fit. short q o.socks fit.socks)
        (λ q. Ends-setnonblocking net fd u _ there (
          Ends-if_in_bounds (ltb i o.now.side_events) tt v _
            (λ q' fit. short q' (ap (λ (t : Session). t.side_events) o.arrays_only) fit.events)
            (λ q'. Ends-epoll_ctl_exactly event_pool (add writable) fd v _ there (
              Ends-client net n _ _ _ put (
                Ends-if_in_bounds (ltb i (length o.now.agent_fd_poll)) _ _ _
                  (λ q'' fit. short q'' o.polls fit.polls)
                  (λ q''. comes_back (
                    Opened-mark i w.state w.kernel o fd (omega (arith, ltb→lt i _ q, o.socks))
                      (subst (λ m. i < m) (ap (λ (t : Session). t.side_events) o.arrays_only)
                        (ltb→lt i _ q'))
                      (ltb→lt i _ q'') said))))))))
    where
      short : {have want : ℕ} → ltb i have ≡ false → have ≡ want → k ≤ want → ⊥
      short q same enough = ground arith

      put :
          get_elem?
            (set w.state.clients n (record (o.now) { agent_sock = set o.now.agent_sock i fd }))
            n
          ≡ some (record (o.now) { agent_sock = set o.now.agent_sock i fd })
      put = get_elem?-set_self w.state.clients n _ o.now o.at

      u : World net.env (Agent net.Index)
      u = record w {
        kernel = (net.socket_call w.kernel).1;
        state = record (w.state) {
          clients =
              set w.state.clients n (record (o.now) { agent_sock = set o.now.agent_sock i fd });
        };
      }

      v : World net.env (Agent net.Index)
      v = record u { kernel = (net.nonblocking_call (net.socket_call w.kernel).1 fd).1 }

      there : Others (record (w.state) {
        clients = set w.state.clients n (record (o.now) { agent_sock = set o.now.agent_sock i fd });
      })
      there = Others-set w.state _ o.others

  same_protocol : (a : Agent net.Index) → Others a → a.options.protocol ≡ a₀.options.protocol
  same_protocol a h = ap (λ (b : Agent net.Index). b.options.protocol) h.clients_only

  connect_agent_round-Opened :
      (k i : ℕ) (b : Bool) (w : World net.env (Agent net.Index))
      → b ≡ true
      → i < k
      → Opened i w.state w.kernel
      → Ends
          (λ _ w'. Opened (suc i) w'.state w'.kernel)
          (λ w'. Others w'.state)
          (¬ Fits s k)
          (connect_agent_round net b n i w)
  unfolding connect_agent_round
  connect_agent_round-Opened k i true w e less o =
      connect_agent_with-Opened k i (net.socket_call w.kernel).0 w refl less o
  connect_agent_round-Opened k i false w e less o = cc

  -- The rounds from connection `i` on.
  connect_agent_from-Opened :
      a₀.options.protocol ≡ tcp
      → (k rounds i : ℕ) (w : World net.env (Agent net.Index)) → i + rounds ≡ k
      → Opened i w.state w.kernel
      → Ends
          (λ _ w'. Opened k w'.state w'.kernel)
          (λ w'. Others w'.state)
          (¬ Fits s k)
          (connect_agent_from net rounds n i w)
  unfolding connect_agent_from
  connect_agent_from-Opened over_tcp k zero i w e o =
      comes_back (subst (λ m. Opened m w.state w.kernel) (omega (arith, e)) o)
  connect_agent_from-Opened over_tcp k (suc rounds) i w e o =
      Ends-and_then _
        (connect_agent_round-Opened k i _ w (ap is_tcp (same_protocol w.state o.others ∙ over_tcp))
          (omega (arith, e)) o)
        (λ _ w' o'. connect_agent_from-Opened over_tcp k rounds (suc i) w' (omega (arith, e)) o')

  -- Each of the client's allowed connections was opened, has its socket and is marked OFF, none is counted as
  -- connected, the arrays have room for all of them, and nothing else has changed.
  pub record Ready (w : World net.env (Agent net.Index)) : Type 0 where
    pub others : Others w.state
    pub now : Session
    pub at : get_elem? w.state.clients n ≡ some now
    pub arrays_only : now ≡ record s {
      agent_sock = now.agent_sock;
      agent_fd_poll = now.agent_fd_poll;
      num_parallel_connections = 0;
    }
    pub socks : length now.agent_sock ≡ length s.agent_sock
    pub polls : length now.agent_fd_poll ≡ length s.agent_fd_poll
    pub marked : (j : ℕ) → j < s.allowed_connections → get_elem? now.agent_fd_poll j ≡ some off
    pub fits : Fits s s.allowed_connections
    pub trail : Trail net s.agent_ip now.agent_sock k₀ s.allowed_connections w.kernel

  -- Where the protocol of the options is TCP, `connect_agent_side` comes to an end. It comes back with
  -- entry `j` of the client's array, for each allowed connection `j`, being the socket that `socket`
  -- handed over for it, which was made non-blocking, added to the poll set and connected to the
  -- client's `agent_ip` at port 9878 + `j`, in the order of `j` and with no other call; each of them is
  -- marked OFF, none is counted as connected, and nothing else has changed; and it comes back only if the client's arrays have an entry for each of them; it exits and
  -- leaves all other clients as they were; or it writes outside the arrays, and only if they have
  -- fewer entries than connections are allowed.
  pub connect_agent_side-Ready :
      a₀.options.protocol ≡ tcp
      → get_elem? a₀.clients n ≡ some s
      → (w : World net.env (Agent net.Index)) → w.state ≡ a₀
      → w.kernel ≡ k₀
      → Ends
          (λ _ w'. Ready w')
          (λ w'. Others w'.state)
          (¬ Fits s s.allowed_connections)
          (connect_agent_side net n w)
  unfolding connect_agent_side
  connect_agent_side-Ready over_tcp at w same start = Ends-client net n w s _ at' (
      Ends-and_then _
        (connect_agent_from-Opened over_tcp s.allowed_connections s.allowed_connections 0 w
          (omega arith)
          (record {
            others = record {
              clients_only =
                  same ∙ ap (λ (a : Agent net.Index). record a₀ { clients = a.clients }) (sym same);
              other = λ m q. ap (λ (a : Agent net.Index). get_elem? a.clients m) same;
            };
            now = s;
            at = at';
            arrays_only = refl;
            socks = refl;
            polls = refl;
            marked = λ j h. absurd (omega arith);
            fits = record { socks = omega arith; events = omega arith; polls = omega arith };
            trail = subst (λ k. Trail net s.agent_ip s.agent_sock k₀ 0 k) (sym start) none_yet;
          }))
        (λ _ w' o. Ends-client net n w' o.now _ o.at (
          comes_back (record {
            others = Others-set w'.state _ o.others;
            now = record (o.now) { num_parallel_connections = 0 };
            at = get_elem?-set_self w'.state.clients n _ o.now o.at;
            arrays_only =
                ap (λ (t : Session). record t { num_parallel_connections = 0 }) o.arrays_only;
            socks = o.socks;
            polls = o.polls;
            marked = o.marked;
            fits = o.fits;
            trail = o.trail;
          }))))
    where
      at' : get_elem? w.state.clients n ≡ some s
      at' = ap (λ (a : Agent net.Index). get_elem? a.clients n) same ∙ at

-- ===== src/Net/Model.antt =====
-- msgque.go and the part of msgque_tcp.go that the manager sees of a connection: its identifier, its
-- type, who stands at the other end, the queue of what is to be written and whether it stops. The
-- messages are those of game/deps/msg, a type of which nothing is used here.
use card.Prelude.{
  ℕ, ite, Bool, true, false, List, [], ◌∷◌, ◌++◌, Option, none, some, if◌then◌else◌, ltb, length,
}
use card.Prelude.Int.{pos, ltb_ℤ}
use card.Prelude.Text.{Str, str_dec, trim_space}
use card.Net.Options.{ConnectParams}
use card.Net.Agent.{ConnAgt, add_clt_remote, get_clt_user, get_svr_agt}

pub data ConnType : Type 0 where
  listens connects accepts : ConnType

abbrev pub is_accept : ConnType → Bool
is_accept accepts = true
is_accept _ = false

abbrev pub is_conn : ConnType → Bool
is_conn connects = true
is_conn _ = false

pub record Msgque (M : Type 0) : Type 0 where
  pub sess_id : ℕ
  pub conn_typ : ConnType
  pub agt : ConnAgt
  pub connect_params : Option ConnectParams
  pub write_chan_size : ℕ
  pub cwrite : List M
  pub stopping : Bool

module _ {M : Type 0} where
  -- The queue's `Send`: a full queue refuses.
  unfoldable pub send_queue : Msgque M → M → Msgque M × Bool
  send_queue r m =
      if ltb (length r.cwrite) r.write_chan_size
      then (record r { cwrite = r.cwrite ++ m ∷ [] }, true)
      else (r, false)

  unfoldable pub send : Msgque M → M → Msgque M × Bool
  unfolding send_queue
  send r m = if r.stopping then (r, false) else send_queue r m

  -- `host` is what net.SplitHostPort makes of the address, `none` where it fails.
  unfoldable pub new_tcp_accept : ℕ → ℕ → Option ConnectParams → Option Str → Str → Msgque M
  new_tcp_accept sess_id write_chan_size connect_params host remote_addr = record {
    sess_id = sess_id;
    conn_typ = accepts;
    agt = add_clt_remote none (elim host [ some h ↦ trim_space h | none ↦ trim_space remote_addr ]);
    connect_params = connect_params;
    write_chan_size = write_chan_size;
    cwrite = [];
    stopping = false;
  }

  unfoldable pub new_tcp_connect : ℕ → ℕ → Option ConnectParams → Msgque M
  new_tcp_connect sess_id write_chan_size connect_params = record {
    sess_id = sess_id;
    conn_typ = connects;
    agt = none;
    connect_params = connect_params;
    write_chan_size = write_chan_size;
    cwrite = [];
    stopping = false;
  }

  unfoldable pub needs_login : Msgque M → Bool
  needs_login mq =
      if is_accept mq.conn_typ
      then (if ltb_ℤ (pos 0) (get_clt_user mq.agt)
          then false
          else ite (str_dec (get_svr_agt mq.agt).0 []) true false)
      else false

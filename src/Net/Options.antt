-- ===== src/Net/Options.antt =====
-- options/options.go and options/define.go: what a connection is configured with. An int32 is an integer;
-- nothing here adds or multiplies. A setter changes the object and returns it, and so do the functions.
use card.Prelude.{
  ℕ, ◌≡◌, refl, ap, suc, ite, Bool, false, ◌&&◌, List, [], ◌∷◌, Option, none, some, arith,
  if◌then◌else◌,
}
use card.Prelude.Int.{ℤ, pos, leb_ℤ, ltb_ℤ, eq_ℤ, ◌≤ℤ◌}
use card.Prelude.Text.{Str, str_dec}

abbrev pub default_buff_size : ℤ
default_buff_size = pos 1048576

abbrev pub write_chan_size_s : ℤ
write_chan_size_s = pos 100000

abbrev pub compress_limit_default : ℤ
compress_limit_default = pos 1024

abbrev pub min_read_size : ℤ
min_read_size = pos 1026

abbrev pub delay_write_ms : ℤ
delay_write_ms = pos 5

abbrev pub net_reconnect_inv : ℤ
net_reconnect_inv = pos 5

pub record ConnectParams : Type 0 where
  pub connect_addr : Str
  pub reconnect_inv : ℤ
  pub svr_type : Str
  pub svr_id : ℤ

pub record ListenParams : Type 0 where
  pub listen_addr : Str
  pub max_conn : ℤ

pub data Error : Type 0 where
  empty_connect_addr empty_svr_type empty_svr_id empty_listen_addr read_size_too_small : Error

unfoldable pub check_connect_params : ConnectParams → Option Error
check_connect_params param = ite (str_dec param.connect_addr []) (some empty_connect_addr) (
    ite (str_dec param.svr_type []) (some empty_svr_type)
      (if eq_ℤ param.svr_id (pos 0) then some empty_svr_id else none))

unfoldable pub new_connect_params : Str → Str → ℤ → ConnectParams
new_connect_params addr svr_type svr_id = record {
  connect_addr = addr;
  svr_type = svr_type;
  svr_id = svr_id;
  reconnect_inv = net_reconnect_inv;
}

unfoldable pub check_listen_params : ListenParams → Option Error
check_listen_params param = ite (str_dec param.listen_addr []) (some empty_listen_addr) none

unfoldable pub new_listen_params : Str → ListenParams
new_listen_params listen_addr = record { listen_addr = listen_addr; max_conn = pos 0 }

pub record NetOptions : Type 0 where
  pub connect_params : Option ConnectParams
  pub listen_params : Option ListenParams
  pub timeout : ℤ
  pub read_size : ℤ
  pub write_size : ℤ
  pub write_chan_size : ℤ
  pub is_gate : Bool
  pub compress : Bool
  pub compress_mode : ℤ
  pub compress_limit : ℤ
  pub enable_dh : Bool
  pub delay_write : ℤ

unfoldable pub new_msg_que_options : NetOptions
new_msg_que_options = record {
  connect_params = none;
  listen_params = none;
  timeout = pos 0;
  read_size = default_buff_size;
  write_size = default_buff_size;
  write_chan_size = write_chan_size_s;
  is_gate = false;
  compress = false;
  compress_mode = pos 0;
  compress_limit = pos 0;
  enable_dh = false;
  delay_write = delay_write_ms;
}

-- `if err := p.Check(); err != nil` of parameters that may be nil.
abbrev pub check_given {ℓ} : {A : Type ℓ} → (A → Option Error) → Option A → Option Error
check_given check none = none
check_given check (some param) = check param

abbrev pub or_else : Option Error → Option Error → Option Error
or_else none next = next
or_else (some e) next = some e

unfoldable pub check_options : NetOptions → Option Error
check_options opt = or_else (check_given check_connect_params opt.connect_params) (
    or_else (check_given check_listen_params opt.listen_params) (
      if ltb_ℤ (pos 0) opt.read_size && ltb_ℤ opt.read_size min_read_size
      then some read_size_too_small
      else none))

unfoldable pub set_listen_params : NetOptions → Option ListenParams → NetOptions
set_listen_params opt params = record opt { listen_params = params }

unfoldable pub set_connect_params : NetOptions → Option ConnectParams → NetOptions
set_connect_params opt params = record opt { connect_params = params }

unfoldable pub set_timeout : NetOptions → ℤ → NetOptions
set_timeout opt timeout = record opt { timeout = timeout }

-- `if size <= 0 { size = default }`
abbrev pub positive_or : ℤ → ℤ → ℤ
positive_or size default = if leb_ℤ size (pos 0) then default else size

unfoldable pub set_read_size : NetOptions → ℤ → NetOptions
set_read_size opt read_size =
    let size : ℤ = positive_or read_size default_buff_size in
    record opt { read_size = if ltb_ℤ size min_read_size then min_read_size else size }

unfoldable pub set_write_size : NetOptions → ℤ → NetOptions
set_write_size opt write_size = record opt { write_size = positive_or write_size default_buff_size }

unfoldable pub set_write_chan_size : NetOptions → ℤ → NetOptions
set_write_chan_size opt write_chan_size = record opt {
  write_chan_size = positive_or write_chan_size write_chan_size_s;
}

unfoldable pub set_is_gate : NetOptions → Bool → NetOptions
set_is_gate opt is_gate = record opt { is_gate = is_gate }

unfoldable pub set_compress : NetOptions → Bool → NetOptions
set_compress opt compress = record opt { compress = compress }

unfoldable pub set_compress_mode : NetOptions → ℤ → NetOptions
set_compress_mode opt mode = record opt { compress_mode = mode }

unfoldable pub set_compress_limit : NetOptions → ℤ → NetOptions
set_compress_limit opt compress_limit = record opt {
  compress_limit = positive_or compress_limit compress_limit_default;
}

unfoldable pub set_enable_dh : NetOptions → Bool → NetOptions
set_enable_dh opt enable_dh = record opt { enable_dh = enable_dh }

unfoldable pub set_delay_write : NetOptions → ℤ → NetOptions
set_delay_write opt delay_write = record opt { delay_write = delay_write }

-- The fields of `configdoc.Net` that `SetNetCfg` reads.
pub record NetCfg : Type 0 where
  pub clt_read_timeout : ℤ
  pub clt_read_buffer_size : ℤ
  pub clt_write_buffer_size : ℤ
  pub clt_write_chan_size : ℤ
  pub clt_enable_dh : Bool
  pub compress : Bool
  pub compress_mode : ℤ
  pub compress_limit : ℤ
  pub delay_write : ℤ

unfoldable pub set_net_cfg : NetOptions → Option NetCfg → NetOptions
set_net_cfg opt none = opt
set_net_cfg opt (some cfg) =
    let opt = set_timeout opt cfg.clt_read_timeout in
    let opt = set_read_size opt cfg.clt_read_buffer_size in
    let opt = set_write_size opt cfg.clt_write_buffer_size in
    let opt = set_write_chan_size opt cfg.clt_write_chan_size in
    let opt = set_enable_dh opt cfg.clt_enable_dh in
    let opt = set_compress opt cfg.compress in
    let opt = set_compress_mode opt cfg.compress_mode in
    let opt = set_compress_limit opt cfg.compress_limit in set_delay_write opt cfg.delay_write

-- `if o.F != 0 { opt.F = o.F }`
abbrev pub non_zero_or : ℤ → ℤ → ℤ
non_zero_or given current = if eq_ℤ given (pos 0) then current else given

unfoldable pub merge_one : NetOptions → Option NetOptions → NetOptions
merge_one opt none = opt
merge_one opt (some o) = record opt {
  timeout = non_zero_or o.timeout opt.timeout;
  read_size = non_zero_or o.read_size opt.read_size;
  write_size = non_zero_or o.write_size opt.write_size;
  write_chan_size = non_zero_or o.write_chan_size opt.write_chan_size;
  compress_mode = o.compress_mode;
  compress_limit = non_zero_or o.compress_limit opt.compress_limit;
  is_gate = o.is_gate;
  compress = o.compress;
  enable_dh = o.enable_dh;
  delay_write = non_zero_or o.delay_write opt.delay_write;
}

unfoldable pub merge_each : NetOptions → List (Option NetOptions) → NetOptions
merge_each opt [] = opt
merge_each opt (o ∷ os) = merge_each (merge_one opt o) os

unfoldable pub merge_options : List (Option NetOptions) → NetOptions
merge_options opts = merge_each new_msg_que_options opts

or_else-none : (e : Option Error) → or_else e none ≡ e
or_else-none none = refl
or_else-none (some e) = refl

read_size_accepted :
    (size : ℤ)
    → let kept : ℤ = positive_or size default_buff_size in
      let used : ℤ = if ltb_ℤ kept min_read_size then min_read_size else kept in
      (min_read_size ≤ℤ used) × ((ltb_ℤ (pos 0) used && ltb_ℤ used min_read_size) ≡ false)
read_size_accepted size = (ground arith, ground arith)

positive_or-positive : (size : ℤ) (n : ℕ) → pos 1 ≤ℤ positive_or size (pos (suc n))
positive_or-positive size n = ground arith

-- Whatever the configuration says, the sizes that SetNetCfg sets are usable: the read buffer holds a
-- frame's length and its longest head, the sizes of writing and the limit of compression are positive,
-- and CheckOptions has nothing to say about the read buffer, so that it accepts the options whenever it
-- accepts their addresses.
pub set_net_cfg-IsUsable :
    (opt : NetOptions) (cfg : NetCfg)
    → let set : NetOptions = set_net_cfg opt (some cfg) in
      (min_read_size ≤ℤ set.read_size)
      × (pos 1 ≤ℤ set.write_size)
      × (pos 1 ≤ℤ set.write_chan_size)
      × (pos 1 ≤ℤ set.compress_limit)
      × (check_options set
          ≡ or_else
              (check_given check_connect_params opt.connect_params)
              (check_given check_listen_params opt.listen_params))
unfolding set_net_cfg set_timeout set_read_size set_write_size set_write_chan_size set_enable_dh
    set_compress set_compress_mode set_compress_limit set_delay_write check_options
set_net_cfg-IsUsable opt cfg = (
  (read_size_accepted cfg.clt_read_buffer_size).0,
  positive_or-positive cfg.clt_write_buffer_size 1048575,
  positive_or-positive cfg.clt_write_chan_size 99999,
  positive_or-positive cfg.compress_limit 1023,
  rw (read_size_accepted cfg.clt_read_buffer_size).1
      (ap (or_else (check_given check_connect_params opt.connect_params)) (or_else-none _)),
)

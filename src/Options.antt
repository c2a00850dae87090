-- ===== src/Options.antt =====
-- functional_options_pattern: options.go, and NewServer of main.go.
pub mod Built
use go_backend_examples.Common.{
  ℕ, zero, suc, String, List, [], ◌∷◌, Bool, true, false, if◌then◌else◌, ℤ, pos, negsuc,
}

-- `port` is an int; a time.Duration is a signed number of nanoseconds.
pub record ServerOpts : Type 0 where
  pub port : ℤ
  pub read_timeout : ℤ
  pub write_timeout : ℤ
  pub server_name : String

pub data OptsError : Type 0 where
  bad_port bad_read_timeout bad_write_timeout : OptsError

pub data Res (A : Type 0) : Type 0 where
  ok : A → Res A
  err : OptsError → Res A

-- An option changes the options that it is given, or returns an error.
abbrev pub ServerOption : Type 0
ServerOption = ServerOpts → Res ServerOpts

abbrev pub default_server_opts : ServerOpts
default_server_opts = record {
  port = pos 8080;
  read_timeout = pos 3000000000;
  write_timeout = pos 10000000000;
  server_name = "default";
}

abbrev pub is_negative : ℤ → Bool
is_negative (pos n) = false
is_negative (negsuc n) = true

abbrev pub is_positive : ℤ → Bool
is_positive (pos zero) = false
is_positive (pos (suc n)) = true
is_positive (negsuc n) = false

abbrev pub with_port : ℤ → ServerOption
with_port port o =
    if is_negative port
    then err bad_port
    else ok (record {
      port = port;
      read_timeout = o.read_timeout;
      write_timeout = o.write_timeout;
      server_name = o.server_name;
    })

abbrev pub with_read_timeout : ℤ → ServerOption
with_read_timeout timeout o =
    if is_positive timeout
    then ok (record {
      port = o.port;
      read_timeout = timeout;
      write_timeout = o.write_timeout;
      server_name = o.server_name;
    })
    else err bad_read_timeout

abbrev pub with_write_timeout : ℤ → ServerOption
with_write_timeout timeout o =
    if is_positive timeout
    then ok (record {
      port = o.port;
      read_timeout = o.read_timeout;
      write_timeout = timeout;
      server_name = o.server_name;
    })
    else err bad_write_timeout

abbrev pub with_server_name : String → ServerOption
with_server_name name o = ok (record {
  port = o.port;
  read_timeout = o.read_timeout;
  write_timeout = o.write_timeout;
  server_name = name;
})

-- `addr` is kept as the two parts that fmt.Sprintf("%s:%d", addr, port) joins.
pub record Server : Type 0 where
  pub addr : String × ℤ
  pub read_timeout : ℤ
  pub write_timeout : ℤ
  pub custom_name : String

abbrev pub then_apply : Res ServerOpts → (ServerOpts → Res ServerOpts) → Res ServerOpts
then_apply (ok o) f = f o
then_apply (err e) f = err e

-- The loop over the options.
unfoldable pub apply_options : List ServerOption → ServerOpts → Res ServerOpts
apply_options [] o = ok o
apply_options (opt ∷ opts) o = then_apply (opt o) (apply_options opts)

abbrev pub server_of : String → Res ServerOpts → Res Server
server_of addr (err e) = err e
server_of addr (ok options) = ok (record {
  addr = (addr, options.port);
  read_timeout = options.read_timeout;
  write_timeout = options.read_timeout;
  custom_name = options.server_name;
})

unfoldable pub new_server : String → List ServerOption → Res Server
unfolding apply_options
new_server addr opts = server_of addr (apply_options opts default_server_opts)

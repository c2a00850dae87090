-- ===== src/Options/Built.antt =====
-- What NewServer builds from options of the package.
use go_backend_examples.Common.{
  String, List, [], ◌∷◌, ◌≡◌, refl, ap, ◌∙◌, if◌then◌else◌, Bool-cases, inl, inr, ℤ, pos, Option,
  none, some,
}
use go_backend_examples.Options.{
  ServerOpts, OptsError, bad_port, bad_read_timeout, bad_write_timeout, ok, err, ServerOption,
  default_server_opts, is_negative, is_positive, with_port, with_read_timeout, with_write_timeout,
  with_server_name, apply_options, server_of, new_server,
}

-- A call of one of the four functions that make an option.
pub data Setting : Type 0 where
  port read write : ℤ → Setting
  name : String → Setting

abbrev pub option_of : Setting → ServerOption
option_of (port p) = with_port p
option_of (read t) = with_read_timeout t
option_of (write t) = with_write_timeout t
option_of (name s) = with_server_name s

abbrev pub options_of : List Setting → List ServerOption
options_of [] = []
options_of (s ∷ ss) = option_of s ∷ options_of ss

-- The error of the first setting out of range.
abbrev pub first_error : List Setting → Option OptsError
first_error [] = none
first_error (port p ∷ ss) = if is_negative p then some bad_port else first_error ss
first_error (read t ∷ ss) = if is_positive t then first_error ss else some bad_read_timeout
first_error (write t ∷ ss) = if is_positive t then first_error ss else some bad_write_timeout
first_error (name s ∷ ss) = first_error ss

-- The last value that is set of each field, or the one given.
abbrev pub last_port : List Setting → ℤ → ℤ
last_port [] p = p
last_port (port p ∷ ss) q = last_port ss p
last_port (read t ∷ ss) q = last_port ss q
last_port (write t ∷ ss) q = last_port ss q
last_port (name s ∷ ss) q = last_port ss q

abbrev pub last_read : List Setting → ℤ → ℤ
last_read [] t = t
last_read (port p ∷ ss) u = last_read ss u
last_read (read t ∷ ss) u = last_read ss t
last_read (write t ∷ ss) u = last_read ss u
last_read (name s ∷ ss) u = last_read ss u

abbrev pub last_write : List Setting → ℤ → ℤ
last_write [] t = t
last_write (port p ∷ ss) u = last_write ss u
last_write (read t ∷ ss) u = last_write ss u
last_write (write t ∷ ss) u = last_write ss t
last_write (name s ∷ ss) u = last_write ss u

abbrev pub last_name : List Setting → String → String
last_name [] n = n
last_name (port p ∷ ss) n = last_name ss n
last_name (read t ∷ ss) n = last_name ss n
last_name (write t ∷ ss) n = last_name ss n
last_name (name s ∷ ss) n = last_name ss s

abbrev pub or_error {ℓ} : {A : Type ℓ} → Option OptsError → (OptsError → A) → A → A
or_error none f a = a
or_error (some e) f a = f e

apply_options-options_of :
    (ss : List Setting) (o : ServerOpts)
    → apply_options (options_of ss) o
      ≡ or_error (first_error ss) err (
          ok (record {
            port = last_port ss o.port;
            read_timeout = last_read ss o.read_timeout;
            write_timeout = last_write ss o.write_timeout;
            server_name = last_name ss o.server_name;
          }))
unfolding apply_options
apply_options-options_of [] o = refl
apply_options-options_of (port p ∷ ss) o = elim (Bool-cases (is_negative p)) [
  | inl e ↦ rw (e)
  | inr e ↦ rw (e, apply_options-options_of ss)
]
apply_options-options_of (read t ∷ ss) o = elim (Bool-cases (is_positive t)) [
  | inl e ↦ rw (e, apply_options-options_of ss)
  | inr e ↦ rw (e)
]
apply_options-options_of (write t ∷ ss) o = elim (Bool-cases (is_positive t)) [
  | inl e ↦ rw (e, apply_options-options_of ss)
  | inr e ↦ rw (e)
]
apply_options-options_of (name s ∷ ss) o = apply_options-options_of ss (record {
  port = o.port;
  read_timeout = o.read_timeout;
  write_timeout = o.write_timeout;
  server_name = s;
})

server_of-or_error :
    (addr : String) (e : Option OptsError) (o : ServerOpts)
    → server_of addr (or_error e err (ok o)) ≡ or_error e err (server_of addr (ok o))
server_of-or_error addr none o = refl
server_of-or_error addr (some e) o = refl

-- NewServer with options of the package returns the error of the first one whose argument is out of
-- range (a port below 0, a timeout not above 0), and with none it returns the server that has the last
-- port and name set, or the defaults, and for both timeouts the last read timeout set, or its default:
-- the write timeouts set have no effect.
pub new_server-options_of :
    (addr : String) (ss : List Setting)
    → new_server addr (options_of ss)
      ≡ or_error (first_error ss) err (
          ok (record {
            addr = (addr, last_port ss (pos 8080));
            read_timeout = last_read ss (pos 3000000000);
            write_timeout = last_read ss (pos 3000000000);
            custom_name = last_name ss "default";
          }))
unfolding new_server
new_server-options_of addr ss =
    ap (server_of addr) (apply_options-options_of ss default_server_opts)
    ∙ server_of-or_error addr (first_error ss) _

-- ===== src/Tests/Options.antt =====
-- The options of functional_options_pattern/main.go.
use go_backend_examples.Common.{[], ◌∷◌, ◌≡◌, refl, pos, negsuc}
use go_backend_examples.Options.{ok, err, bad_port, new_server, apply_options, with_port}
use go_backend_examples.Options.Built.{new_server-options_of, port, write, name, options_of}

-- The second server of `main`, with a write timeout that gets lost.
new_server-options_of_example :
    new_server "127.0.0.1" (options_of (port (pos 1234) ∷ write (pos 5) ∷ name "test_server" ∷ []))
    ≡ ok (record {
      addr = ("127.0.0.1", pos 1234);
      read_timeout = pos 3000000000;
      write_timeout = pos 3000000000;
      custom_name = "test_server";
    })
new_server-options_of_example =
    new_server-options_of "127.0.0.1" (port (pos 1234) ∷ write (pos 5) ∷ name "test_server" ∷ [])

-- Port 0 passes, although the message asks for a positive int; a negative port does not.
ports :
    (new_server "127.0.0.1" (with_port (negsuc 0) ∷ []) ≡ err bad_port)
    × (new_server "127.0.0.1" (with_port (pos 0) ∷ [])
        ≡ ok (record {
          addr = ("127.0.0.1", pos 0);
          read_timeout = pos 3000000000;
          write_timeout = pos 3000000000;
          custom_name = "default";
        }))
unfolding new_server apply_options
ports = (refl, refl)

-- ===== src/Server/Port.antt =====
-- The port of main.cpp: `parse_cmdline` asks the configuration for it before that is loaded.
use cnode.Prelude.{
  ℕ, ◌≡◌, ap, ◌∙◌, Bool, true, false, List, [], ◌∷◌, Option, some, arith, Option-cases, inl, inr,
}
use cnode.Prelude.Int.{ℤ, pos}
use cnode.Prelude.Bytes.{Bytes}
use cnode.Config.{Config, int_conf, read, find_entry}
use cnode.Server.{
  Opt, conf_file, port_arg, as_daemon, version, unknown, Params, parse_opts, parse_cmdline, port_of,
  listen_port, main_port,
}

-- No `-p` is given.
abbrev pub no_port : List Opt → Bool
no_port [] = true
no_port (port_arg s ∷ os) = false
no_port (_ ∷ os) = no_port os

parse_opts-port :
    (os : List Opt) (p : Params) (ret : ℕ) {q : Params} {code : ℕ}
    → no_port os ≡ true
    → parse_opts os p ret ≡ some (q, code)
    → q.port ≡ p.port
unfolding parse_opts
parse_opts-port [] p ret h e = ground arith
parse_opts-port (conf_file f ∷ os) p ret h e = parse_opts-port os (record p { inifile = f }) ret h e
parse_opts-port (port_arg s ∷ os) p ret h e = ground arith
parse_opts-port (as_daemon ∷ os) p ret h e = parse_opts-port os (record p { daemon = true }) ret h e
parse_opts-port (version ∷ os) p ret h e = ground arith
parse_opts-port (unknown ∷ os) p ret h e = parse_opts-port os p 4 h e

listen_port-empty : (conf : Config) → conf.lst_config ≡ [] → listen_port conf ≡ some (pos 6001)
unfolding int_conf read find_entry
listen_port-empty conf h = ground (arith, h)

main_port-params :
    (file : Bytes → Option Bytes) (unset : ℤ) (os : List Opt) (conf : Config) (n : ℤ)
    {x : Params × ℕ}
    → parse_cmdline conf unset os ≡ some x
    → main_port file unset os conf ≡ some n
    → n ≡ x.0.port
unfolding main_port
main_port-params file unset os conf n a e = ground (arith, a)

-- Without `-p`, a server that starts listens at 6001, whatever port its configuration file names:
-- at that time nothing has been loaded yet.
pub main_port-default :
    (file : Bytes → Option Bytes) (unset : ℤ) (os : List Opt) (conf : Config) (n : ℤ)
    → conf.lst_config ≡ []
    → no_port os ≡ true
    → main_port file unset os conf ≡ some n
    → n ≡ pos 6001
unfolding main_port parse_cmdline port_of
main_port-default file unset os conf n empty h e =
    elim (Option-cases (parse_cmdline conf unset os)) [
      | inl a ↦ ground (arith, a)
      | inr (x, a) ↦
          main_port-params file unset os conf n a e
          ∙ parse_opts-port os _ 0 h a
          ∙ ap (port_of unset) (listen_port-empty conf empty)
    ]

-- ===== src/Tests/Entry.antt =====
-- Witnesses for the start of the program and the server of the statistics.
use lbmanager.Base.{
  ◌≡◌, ◌↔◌, refl, ℕ, pos, String, Bool, true, false, ◌||◌, none, some, List, [], ◌∷◌, ◌==◌, ==_self,
  string_eq, if◌then◌else◌, message, not_exist, ok, err,
}
use lbmanager.Ipv4.{v4}
use lbmanager.Utils.{Host}
use lbmanager.Conf
use lbmanager.Conf.{LbConf}
use lbmanager.Ipam.Etcd.{etcd_store}
use lbmanager.Main.{Program, main, has_entered}
use lbmanager.Main.Entry.{IsReady, main_iff}
use lbmanager.Stats.Server.{Http, IsMux, get_cps, is_running, get_cps-running}
use lbmanager.Tests.Start.{slow}
use lbmanager.Tests.Ipam.{vips}

-- Patterns, and a server that fails at once.
abbrev has : List String → String → Bool
has [] p = false
has (q ∷ w) p = (q == p) || has w p

abbrev http : Http (List String)
http = record {
  itoa = λ n. "33611";
  handle_func = λ p w. if has w p then none else some (p ∷ w);
  listen_and_serve = λ a w. (err (message "address already in use"), w);
}

mux : IsMux http
mux = record {
  has = has;
  handle_free = λ p w free. (p ∷ w, rw free refl, rw (==_self p) refl);
  handle_taken = λ p w taken. rw taken refl;
  has-listen = λ p a w h. h;
}

get_cps-running_example : is_running (get_cps http (pos 33611) 3 []) ≡ false
unfolding mux
get_cps-running_example = get_cps-running http (pos 33611) mux 3 [] refl

abbrev host : Host ℕ
host = record {
  start = λ c w. (ok tt, w);
  wait = λ c w. (ok tt, w);
  stat = λ f w. (ok tt, w);
  read_file = λ f w. (ok "", w);
  write_file = λ f t w. (ok tt, w);
  remove = λ f w. (ok tt, w);
  readlink = λ f w. (err not_exist, w);
}

abbrev conf : LbConf
conf = record (Conf.defaults host) {
  type = "l7";
  store_prefix = "/lb/";
  cluster_name = "c1";
  catalog = "bj";
}

abbrev program : Program ℕ String
program = record {
  host = host;
  decode = λ text defaults. ok conf;
  new_store = λ clients. ok slow.store;
  hostname = λ w. (ok "node", w);
  lvs = record {
    conf = conf;
    config_path = "";
    key = "";
    is_leader = false;
    groups = [];
    alc = record {
      start = v4 2886402049;
      end = v4 2886402054;
      conf = record {
        name = "vips";
        range_start = none;
        range_end = none;
        subnet = record { ip = v4 2886402048; mask = 255 ∷ 255 ∷ 255 ∷ 248 ∷ [] };
        gateway = none;
        routes = [];
      };
      store = etcd_store slow vips;
    };
    fuel = 6;
    kv = slow;
    host = host;
    join = λ d f. d;
    unmarshal = λ t lb. ok lb;
    marshal = λ lb. ok lb.name;
    execute = λ i. ok "";
  };
  nginx = record {
    config_path = "";
    stream_conf_path = "";
    host = host;
    join = λ d f. d;
    unmarshal = λ t lb. ok lb;
    execute = λ ng. ok "";
  };
  lock = record {
    kv = slow;
    item = "";
    key = "";
    identity = "";
    unmarshal = λ text. ok text;
    marshal = λ ler. ok ler;
    not_found = λ item key. message key;
  };
  run_or_die = λ config obj w. (ok tt, w);
}

main_iff_example : (has_entered (main program 5 "127.0.0.1:2379" 0).0 ≡ true) ↔ (
    ((◌==◌ {A = String} "127.0.0.1:2379" "" ≡ false)
      × IsReady program 5 "127.0.0.1:2379"
          (Conf.init host program.decode (record { laddr = []; world = 0 }))))
main_iff_example = main_iff program 5 "127.0.0.1:2379" 0

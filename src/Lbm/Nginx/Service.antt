-- ===== src/Lbm/Nginx/Service.antt =====
-- pkg/lbm/nginx.go: the service behind a layer 7 load balancer.
pub mod Files
use lbmanager.Base.{
  String, ◌<>◌, Bool, false, not, List, [], ◌∷◌, ◌==◌, string_eq, if◌then◌else◌, is_ok, Result, ok,
  err, Exec,
}
use lbmanager.Base.Monad.Pure.{◌>>=◌}
use lbmanager.Utils.{Host, is_file_exist, shell_out, check_thread_exist}
use lbmanager.Lbm.Nginx.{Nginx, new_nginx, validate}
use lbmanager.Lbm.Common.{get_name, get_cluster_name}
use lbmanager.Lbm.Render.{render}
use lbmanager.Lbm.Handlers.{Impl, LbBase}

abbrev cmd : String
cmd = "/usr/sbin/nginx"

abbrev pid_file : String
pid_file = "/run/nginx.pid"

-- NginxImpl and what it calls.
pub record NginxImpl (W : Type 0) : Type 0 where
  pub config_path : String
  pub stream_conf_path : String
  pub host : Host W
  -- path.Join
  pub join : String → String → String
  pub unmarshal : String → Nginx → Result Nginx
  -- the template of tmpl.go, filled in
  pub execute : Nginx → Result String

abbrev or_false : Result Bool → Bool
or_false (ok b) = b
or_false (err _) = false

module _ {W : Type 0} (n : NginxImpl W) where
  unfoldable pub parse : String → String → Result Nginx
  parse key text = n.unmarshal text new_nginx >>= validate

  unfoldable pub get_config_file_path : String → String → String
  get_config_file_path tp name =
      n.join (if not (tp == "HTTP") then n.stream_conf_path else n.config_path) (name <> ".conf")

  unfoldable pub config_service : Nginx → W → Bool × Nginx × W
  unfolding get_config_file_path
  config_service ng w =
      let (r, w1) = render n.host n.execute (get_config_file_path ng.protocol ng.name) ng w in
      (or_false r, ng, w1)

  -- The loop over the two directories; it ends at the first file that exists.
  unfoldable pub delete_in : List String → String → W → Bool × W
  unfolding get_config_file_path
  delete_in [] name w = (false, w)
  delete_in (p ∷ prot) name w =
      let (found, w1) = is_file_exist n.host (get_config_file_path p name) w in
      let (removed, w2) = n.host.remove (get_config_file_path p name) w1 in
      let others = delete_in prot name w1 in if is_ok found then (is_ok removed, w2) else others

  unfoldable pub delete_service : String → W → Bool × W
  unfolding delete_in
  delete_service name w = delete_in ("HTTP" ∷ "L4" ∷ []) name w

  -- The check of the configuration, and the reload if it passed.
  unfoldable pub reload : W → W
  reload w =
      let (checked, w1) = shell_out n.host (cmd <> " -t") w in
      let (_, w2) = shell_out n.host (cmd <> " -s reload") w1 in if is_ok checked then w2 else w1

  -- Init; an error ends the program.
  unfoldable pub init : Exec W (Unit {0})
  init w =
      let (running, w1) = check_thread_exist n.host pid_file cmd w in
      let started = shell_out n.host cmd w1 in if or_false running then (ok tt, w1) else started

  -- Recover, which does nothing.
  unfoldable pub recover : LbBase W Nginx → LbBase W Nginx
  recover b = b

  unfoldable pub nginx_service : (Nginx → Nginx → Bool) → Impl W Nginx
  unfolding parse config_service delete_service reload recover
  nginx_service deep_equal = record {
    parse = parse;
    config_service = config_service;
    delete_service = delete_service;
    reload = reload;
    recover = recover;
    name = λ lb. get_name lb.common;
    cluster_name = λ lb. get_cluster_name lb.common;
    equal = deep_equal;
  }

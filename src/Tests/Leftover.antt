-- ===== src/Tests/Leftover.antt =====
-- The witness for the two files of a layer 7 load balancer: both are there.
use lbmanager.Base.{
  ◌≡◌, ◌≢◌, refl, String, ◌<>◌, Bool, true, false, ◌==◌, string_eq, if◌then◌else◌, not_exist,
  Result, ok, err, is_ok,
}
use lbmanager.Utils.{Host}
use lbmanager.Lbm.Nginx.Service.{NginxImpl, get_config_file_path, delete_service}
use lbmanager.Lbm.Nginx.Service.Files.{IsDisk, delete_service-has}

abbrev when : Bool → Result (Unit {0})
when true = ok tt
when false = err not_exist

when-is_ok : (b : Bool) → is_ok (when b) ≡ b
when-is_ok true = refl
when-is_ok false = refl

-- The world tells which files there are.
abbrev host : Host (String → Bool)
host = record {
  start = λ c w. (ok tt, w);
  wait = λ c w. (ok tt, w);
  stat = λ f w. (when (w f), w);
  read_file = λ f w. (ok "", w);
  write_file = λ f t w. (ok tt, w);
  remove = λ f w. (when (w f), λ g. if f == g then false else w g);
  readlink = λ f w. (ok "", w);
}

disk : IsDisk host
disk = record {
  has = λ w f. w f;
  stat_lem = λ f w. when-is_ok (w f);
  has-stat = λ f g w. refl;
  remove_lem = λ f w. when-is_ok (w f);
  has-remove = λ f g w. refl;
}

abbrev service : NginxImpl (String → Bool)
service = record {
  config_path = "conf.d";
  stream_conf_path = "stream.conf.d";
  host = host;
  join = λ d f. d <> "/" <> f;
  unmarshal = λ t lb. ok lb;
  execute = λ ng. ok "";
}

two : get_config_file_path service "HTTP" "web" ≢ get_config_file_path service "L4" "web"
unfolding get_config_file_path
two h = absurd cc

delete_service-has_example :
    ((delete_service service "web" (λ f. true)).0 ≡ true)
    × ((delete_service service "web" (λ f. true)).1 (get_config_file_path service "HTTP" "web")
        ≡ false)
    × ((delete_service service "web" (λ f. true)).1 (get_config_file_path service "L4" "web")
        ≡ true)
unfolding disk
delete_service-has_example = delete_service-has service disk "web" (λ f. true) two

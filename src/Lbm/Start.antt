-- ===== src/Lbm/Start.antt =====
-- The constructors of pkg/lbm: NewLB of lbm.go, NewLVSImpl and Init of lvs.go, NewNginxImpl of
-- nginx.go and New of ilb.go. What an object calls (Lbm/Service, Lbm/Nginx/Service) is taken from an
-- object that is given. The goroutines that Init starts are the loops of Keepalived (`round`) and
-- Stats/Server (`get_cps`).
pub mod Apart
use lbmanager.Base.{String, ◌<>◌, ◌==◌, string_eq, if◌then◌else◌, ◌⊎◌, inl, inr, Exec}
use lbmanager.Base.Monad.Exec.{pure, ◌>>=◌, ◌>>◌}
use lbmanager.Base.Dict.{Dict}
use lbmanager.Conf.{LbConf}
use lbmanager.Ipam.State
use lbmanager.Keepalived
use lbmanager.Lbm.Service.{Lvsimpl}
use lbmanager.Lbm.Nginx.Service
use lbmanager.Lbm.Nginx.Service.{NginxImpl}

abbrev pub item : String
item = "lb/"

-- The fields Item and Key of NewLB.
unfoldable pub lb_item : LbConf → String
lb_item c = c.catalog <> "/" <> c.type <> "/"

unfoldable pub lb_key : LbConf → String
lb_key c = item <> lb_item c

unfoldable pub new_lvs_impl : {W : Type 0} → Lvsimpl W → LbConf → Lvsimpl W
unfolding lb_item lb_key
new_lvs_impl l c = record l { conf = c; config_path = l.join c.conf_dir "conf.d"; key = lb_key c }

unfoldable pub new_nginx_impl : {W : Type 0} → NginxImpl W → LbConf → NginxImpl W
new_nginx_impl n c = record n {
  config_path = n.join c.conf_dir "conf.d";
  stream_conf_path = n.join c.conf_dir "stream.conf.d";
}

-- New of ilb.go
unfoldable pub new :
    {W : Type 0} → Lvsimpl W → NginxImpl W → LbConf → String → Lvsimpl W ⊎ NginxImpl W
unfolding new_lvs_impl new_nginx_impl
new l n c t = if t == "l4" then inl (new_lvs_impl l c) else inr (new_nginx_impl n c)

-- Init of LVSImpl: the allocator of package ipam, and its cache; then the start of keepalived.
unfoldable pub init_lvs : {W : Type 0} → Lvsimpl W → Exec W (Lvsimpl W × Dict String)
unfolding State.init Keepalived.start
init_lvs l = do
  (alc, cache) ← State.init l.kv l.conf.l4_conf.subnet_name l.conf.l4_conf.subnet_cidr
  Keepalived.start l.host
  pure (record l { alc = alc }, cache)

-- Init of the object that New gives, by its type.
unfoldable pub init :
    {W : Type 0} → Lvsimpl W ⊎ NginxImpl W → Exec W ((Lvsimpl W × Dict String) ⊎ NginxImpl W)
unfolding init_lvs Service.init
init (inl l) = do started ← init_lvs l; pure (inl started)
init (inr n) = do Service.init n; pure (inr n)

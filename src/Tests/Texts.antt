-- ===== src/Tests/Texts.antt =====
-- Witnesses for the templates and the statistics.
use lbmanager.Base.{◌≡◌, refl, ◌*◌, true, [], ◌∷◌, pos, nat_eq, string_eq}
use lbmanager.Lbm.Lvs.{new_lvs}
use lbmanager.Lbm.Nginx.{Nginx, new_nginx}
use lbmanager.Lbm.Service.{LvsInner}
use lbmanager.Lbm.Template.Nesting.{braces, nest}
use lbmanager.Lbm.Template.Lvs.{lvs_text}
use lbmanager.Lbm.Template.Nginx.{nginx_text}
use lbmanager.Lbm.Template.Braces.{IsPlainInner, excess, lvs_text-braces}
use lbmanager.Lbm.Template.NginxBraces.{IsPlainNginx, nginx_text-braces}

abbrev inner : LvsInner
inner = record {
  lvs = record new_lvs {
    vip = "172.11.0.2";
    port = pos 80;
    monitor = record new_lvs.monitor { type = "HTTP" };
    servers = record { ip = "10.0.0.1"; port = pos 8080; weight = pos 100 } ∷ [];
  };
  l_addr_group = "inner";
  k_conf = record { conf_dir = "/etc/keepalived"; reload_time = pos 5; misc_script = "/bin/check" };
}

inner-IsPlainInner : IsPlainInner inner
unfolding new_lvs braces
inner-IsPlainInner = record {
  vip = refl;
  strategy = refl;
  kind = refl;
  group = refl;
  script = refl;
  url = refl;
  servers = (refl, tt);
}

lvs_text-braces_example : nest 0 0 (braces (lvs_text inner)) ≡ (0, excess inner * 1)
unfolding new_lvs
lvs_text-braces_example = lvs_text-braces inner inner-IsPlainInner

abbrev site : Nginx
site = record new_nginx {
  common = record new_nginx.common { protocol = "HTTP" };
  vip = "172.11.0.2";
  port = pos 80;
  pools =
      record {
        name = "app";
        strategy = "least_conn";
        session_stick = record {
          name = "sid";
          domain = "";
          path = "";
          expires = pos 0;
          enable = true;
        };
        servers = record { ip = "10.0.0.1"; port = pos 8080; weight = pos 1 } ∷ [];
      }
      ∷ [];
  locations = record { uri_path = "/"; pool_name = "app" } ∷ [];
}

site-IsPlainNginx : IsPlainNginx site
unfolding new_nginx braces
site-IsPlainNginx = record {
  name = refl;
  vip = refl;
  pools = (record { name = refl; strategy = refl; session = refl; servers = (refl, tt) }, tt);
  locations = (record { uri_path = refl; pool_name = refl }, tt);
}

nginx_text-braces_example : nest 0 0 (braces (nginx_text site)) ≡ (0, 0)
nginx_text-braces_example = nginx_text-braces site site-IsPlainNginx

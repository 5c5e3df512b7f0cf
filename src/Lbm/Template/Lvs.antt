-- ===== src/Lbm/Template/Lvs.antt =====
-- lvsTmpl of pkg/lbm/tmpl.go, filled in.
use lbmanager.Base.{String, not, [], ◌∷◌, ◌==◌, string_eq, nat_eq, int_eq, if◌then◌else◌}
use lbmanager.Net.{decimal}
use lbmanager.Lbm.Common.{Backend}
use lbmanager.Lbm.Service.{LvsInner}
use lbmanager.Lbm.Template.{concat, for_each, int_text, text_if}

-- The check of one server.
unfoldable pub health_check : LvsInner → Backend → String
health_check i be =
    let lb = i.lvs in
    if lb.monitor.type == "MISC"
    then concat (
        "\n\t\tMISC_CHECK {\n"
        ∷ "\t\t\tmisc_path \""
        ∷ i.k_conf.misc_script
        ∷ " "
        ∷ be.ip
        ∷ " "
        ∷ int_text be.port
        ∷ "\"\n"
        ∷ "\t\t\tmisc_timeout "
        ∷ int_text lb.monitor.timeout
        ∷ "\n\t\t}\n"
        ∷ "\t\t"
        ∷ [])
    else (if lb.monitor.type == "HTTP"
        then concat (
            "\n\t\tHTTP_GET {\n"
            ∷ "\t\t\turl {\n"
            ∷ "\t\t\t\tpath "
            ∷ lb.monitor.url_path
            ∷ "\n\t\t\t\tstatus_code "
            ∷ int_text lb.monitor.status_code
            ∷ "\n\t\t\t}\n"
            ∷ "\t\t\tconnect_timeout "
            ∷ int_text lb.monitor.timeout
            ∷ "\n\t\t\tnb_get_retry "
            ∷ int_text lb.monitor.max_retries
            ∷ "\n\t\t\tdelay_before_retry {$monitor.Delay}}\n"
            ∷ "\t\t}\n"
            ∷ "\t\t"
            ∷ [])
        else concat (
            "\n\t\tTCP_CHECK {\n"
            ∷ "\t\t\tconnect_timeout "
            ∷ int_text lb.monitor.timeout
            ∷ "\n\t\t\tretry "
            ∷ int_text lb.monitor.max_retries
            ∷ "\n\t\t\tdelay_before_retry "
            ∷ int_text lb.monitor.delay
            ∷ "\n\t\t}\n"
            ∷ "\t\t"
            ∷ []))

-- The body of the range over the servers.
unfoldable pub real_server : LvsInner → Backend → String
unfolding health_check
real_server i be = concat (
    "\n\treal_server "
    ∷ be.ip
    ∷ " "
    ∷ int_text be.port
    ∷ " {\n"
    ∷ "\t\tweight "
    ∷ int_text be.weight
    ∷ "\n\t\tinhibit_on_failure\n"
    ∷ "\t\t"
    ∷ health_check i be
    ∷ "\n\t}\n"
    ∷ [])

unfoldable pub lvs_text : LvsInner → String
unfolding real_server
lvs_text i =
    let lb = i.lvs in
    concat (
      "\n\n\n\n\n\n\n\nvirtual_server_group "
      ∷ lb.vip
      ∷ ":"
      ∷ int_text lb.port
      ∷ " {\n"
      ∷ "\t"
      ∷ lb.vip
      ∷ " "
      ∷ int_text lb.port
      ∷ "\n}\n"
      ∷ "\nvirtual_server group "
      ∷ lb.vip
      ∷ ":"
      ∷ int_text lb.port
      ∷ " {\n"
      ∷ "\tdelay_loop "
      ∷ int_text lb.monitor.interval
      ∷ "\n\tlb_algo "
      ∷ (if not (lb.conf.strategy == "") then lb.conf.strategy else "rr")
      ∷ "\n\tlb_kind "
      ∷ (if not (lb.conf.kind == "") then lb.conf.kind else "FNAT")
      ∷ "\n\tprotocol "
      ∷ (if not (lb.protocol == "UDP") then "TCP" else "UDP")
      ∷ "\n\t"
      ∷ text_if (not (lb.conf.persistence_timeout == 0))
          (concat ("persistence_timeout " ∷ decimal lb.conf.persistence_timeout ∷ []))
      ∷ "\n\t"
      ∷ text_if (lb.conf.syn_proxy) ("syn_proxy")
      ∷ "\n\t"
      ∷ text_if (not (lb.conf.bps_limit == 0))
          (concat ("bps_limit " ∷ decimal lb.conf.bps_limit ∷ []))
      ∷ "\n\t"
      ∷ text_if (not (lb.conf.cps_limit == 0))
          (concat ("cps_limit " ∷ decimal lb.conf.cps_limit ∷ []))
      ∷ "\n\n\t"
      ∷ text_if (not (i.l_addr_group == "")) (concat ("laddr_group_name " ∷ i.l_addr_group ∷ []))
      ∷ "\n\n\talpha\n"
      ∷ "\tomega\n"
      ∷ "\tquorum 1\n"
      ∷ "\thysteresis 0\n"
      ∷ "\tquorum_up \"ip addr add "
      ∷ lb.vip
      ∷ "/32 dev lo\"\n"
      ∷ "\tquorum_down \"ip addr del "
      ∷ lb.vip
      ∷ "/32 dev lo\"\n"
      ∷ "\n"
      ∷ for_each (real_server i) lb.servers
      ∷ "\n}\n"
      ∷ [])

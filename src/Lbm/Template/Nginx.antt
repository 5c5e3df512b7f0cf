-- ===== src/Lbm/Template/Nginx.antt =====
-- nginxTmpl of pkg/lbm/tmpl.go, filled in.
use lbmanager.Base.{pos, String, not, ◌&&◌, [], ◌∷◌, ◌==◌, string_eq, int_eq, if◌then◌else◌}
use lbmanager.Lbm.Common.{Backend}
use lbmanager.Lbm.Nginx.{Nginx, Pool, Location}
use lbmanager.Lbm.Template.{concat, for_each, int_text, text_if}

-- A server of an upstream.
unfoldable pub server_line : Nginx → Backend → String
server_line n server = concat (
    "\n\tserver "
    ∷ server.ip
    ∷ ":"
    ∷ int_text server.port
    ∷ " "
    ∷ text_if (not (server.weight == pos 0)) (concat ("weight=" ∷ int_text server.weight ∷ []))
    ∷ " "
    ∷ text_if (not (n.monitor.max_retries == pos 0))
        (concat ("max_fails=" ∷ int_text n.monitor.max_retries ∷ []))
    ∷ " "
    ∷ text_if (not (n.monitor.timeout == pos 0))
        (concat ("fail_timeout=" ∷ int_text n.monitor.timeout ∷ []))
    ∷ ";\n"
    ∷ "\t"
    ∷ [])

-- The session of an upstream.
unfoldable pub sticky : Pool → String
sticky up = concat (
    "\n\t\n"
    ∷ "\tsticky "
    ∷ text_if (not (up.session_stick.name == "")) (concat ("name=" ∷ up.session_stick.name ∷ []))
    ∷ ";\n"
    ∷ "\t"
    ∷ [])

unfoldable pub upstream : Nginx → Pool → String
unfolding server_line sticky
upstream n up = concat (
    "\nupstream "
    ∷ up.name
    ∷ " {\n"
    ∷ "\t"
    ∷ text_if (not (up.strategy == "round_robin")) (up.strategy)
    ∷ "\n\t"
    ∷ text_if (up.session_stick.enable && n.protocol == "HTTP") (sticky up)
    ∷ "\n\t"
    ∷ for_each (server_line n) up.servers
    ∷ "\n}\n"
    ∷ [])

unfoldable pub http_location : Location → String
http_location location = concat (
    "\n\tlocation " ∷ location.uri_path ∷ " {\n" ∷ "\t\tproxy_pass http://" ∷ location.pool_name
    ∷ ";\n" ∷ "\t\tproxy_set_header X-Real-IP $remote_addr;\n"
    ∷ "\t\tproxy_set_header X-Forwarded-For  $proxy_add_x_forwarded_for;\n"
    ∷ "\t\tproxy_set_header Host $http_host;\n" ∷ "\n\t}\n" ∷ "\t" ∷ [])

unfoldable pub stream_location : Location → String
stream_location location = concat ("\n\tproxy_pass " ∷ location.pool_name ∷ ";\n" ∷ "\t" ∷ [])

-- The part of a server for HTTP, and for the other protocols.
unfoldable pub http_part : Nginx → String
unfolding http_location
http_part n = concat (
    "\n\taccess_log /var/log/nginx/"
    ∷ n.name
    ∷ "-"
    ∷ int_text n.port
    ∷ ".log  main buffer=32k flush=5s;\n"
    ∷ "\troot /usr/share/nginx/html;\n"
    ∷ "\t"
    ∷ for_each http_location n.locations
    ∷ "\n\terror_page 404 /404.html;\n"
    ∷ "\t\tlocation = /40x.html {\n"
    ∷ "\t}\n"
    ∷ "\n\terror_page 500 502 503 504 /50x.html;\n"
    ∷ "\t\tlocation = /50x.html {\n"
    ∷ "\t}\n"
    ∷ "\t"
    ∷ [])

unfoldable pub stream_part : Nginx → String
unfolding stream_location
stream_part n = concat ("\n\t" ∷ for_each stream_location n.locations ∷ "\n\t" ∷ [])

unfoldable pub nginx_text : Nginx → String
unfolding upstream http_part stream_part
nginx_text n = concat (
    "\n\n\n"
    ∷ for_each (upstream n) n.pools
    ∷ "\n\n\n\n\nserver {\n"
    ∷ "\tlisten "
    ∷ text_if (not (n.vip == "")) (concat (n.vip ∷ ":" ∷ []))
    ∷ int_text n.port
    ∷ " "
    ∷ text_if (n.protocol == "UDP") ("udp")
    ∷ " reuseport;\n"
    ∷ "\n\t"
    ∷ (if n.protocol == "HTTP" then http_part n else stream_part n)
    ∷ "\n}\n"
    ∷ [])

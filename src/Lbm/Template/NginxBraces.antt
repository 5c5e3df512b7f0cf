-- ===== src/Lbm/Template/NginxBraces.antt =====
-- The braces of the file of a layer 7 load balancer.
use lbmanager.Base.{
  ◌≡◌, refl, ◌∙◌, ◌++◌, ℤ, pos, List, String, Bool, true, false, not, ◌&&◌, [], ◌∷◌, ◌==◌, int_eq,
  string_eq, if◌then◌else◌, length, All,
}
use lbmanager.Lbm.Common.{Backend}
use lbmanager.Lbm.Nginx.{Nginx, Pool, Location}
use lbmanager.Lbm.Template.{concat, int_text, text_if}
use lbmanager.Lbm.Template.Nesting.{
  braces, nest, IsPlain, IsBalanced, braces-concat, braces-for_each, int_text-IsPlain,
  text_if-IsPlain, option-IsPlain, append_assoc, times, times-empty, times-IsBalanced,
}
use lbmanager.Lbm.Template.Nginx.{
  server_line, sticky, http_part, stream_part, upstream, http_location, stream_location, nginx_text,
}

pub record IsPlainPool (p : Pool) : Type 0 where
  pub name : IsPlain p.name
  pub strategy : IsPlain p.strategy
  pub session : IsPlain p.session_stick.name
  pub servers : All (λ be. IsPlain be.ip) p.servers

pub record IsPlainLocation (l : Location) : Type 0 where
  pub uri_path : IsPlain l.uri_path
  pub pool_name : IsPlain l.pool_name

-- The texts that fill in the template have no braces.
pub record IsPlainNginx (n : Nginx) : Type 0 where
  pub name : IsPlain n.name
  pub vip : IsPlain n.vip
  pub pools : All IsPlainPool n.pools
  pub locations : All IsPlainLocation n.locations

setting :
    (name : String) (z : ℤ)
    → IsPlain name
    → IsPlain (text_if (not (z == pos 0)) (concat (name ∷ int_text z ∷ [])))
setting name z p = option-IsPlain (not (z == pos 0)) name (int_text z) p (int_text-IsPlain z)

server_line-IsPlain : (n : Nginx) (be : Backend) → IsPlain be.ip → IsPlain (server_line n be)
unfolding server_line braces
server_line-IsPlain n be ip =
    rw
      (
        braces-concat,
        ip,
        int_text-IsPlain be.port,
        setting "weight=" be.weight refl,
        setting "max_fails=" n.monitor.max_retries refl,
        setting "fail_timeout=" n.monitor.timeout refl,
      )
      refl

sticky-IsPlain : (p : Pool) → IsPlain p.session_stick.name → IsPlain (sticky p)
unfolding sticky braces
sticky-IsPlain p h =
    let named =
      option-IsPlain (not (p.session_stick.name == "")) "name=" p.session_stick.name refl h in
    rw (braces-concat, named) refl

-- An opening brace and the closing one behind it.
abbrev pair : List Bool
pair = true ∷ false ∷ []

pair-IsBalanced : IsBalanced pair
unfolding nest
pair-IsBalanced opened stray r = refl

braces-upstream : (n : Nginx) (p : Pool) → IsPlainPool p → braces (upstream n p) ≡ pair
unfolding upstream braces
braces-upstream n p h =
    let servers =
      braces-for_each (server_line n) [] (λ be. IsPlain be.ip) (server_line-IsPlain n) p.servers
        h.servers in
    let strategy = text_if-IsPlain (not (p.strategy == "round_robin")) p.strategy h.strategy in
    let session =
      text_if-IsPlain (p.session_stick.enable && n.protocol == "HTTP") (sticky p)
        (sticky-IsPlain p h.session) in
    rw (braces-concat, h.name, strategy, session, servers, times-empty) refl

braces-http_location : (l : Location) → IsPlainLocation l → braces (http_location l) ≡ pair
unfolding http_location braces
braces-http_location l h = rw (braces-concat, h.uri_path, h.pool_name) refl

stream_location-IsPlain : (l : Location) → IsPlainLocation l → IsPlain (stream_location l)
unfolding stream_location braces
stream_location-IsPlain l h = rw (braces-concat, h.pool_name) refl

-- What stands in the server's braces for HTTP.
abbrev http_braces : Nginx → List Bool
http_braces n = times (length n.locations) pair ++ (true ∷ false ∷ true ∷ false ∷ [])

braces-http_part : (n : Nginx) → IsPlainNginx n → braces (http_part n) ≡ http_braces n
unfolding http_part braces
braces-http_part n h =
    let locations =
      braces-for_each http_location pair IsPlainLocation braces-http_location n.locations
        h.locations in
    rw (braces-concat, h.name, int_text-IsPlain n.port, locations) refl

stream_part-IsPlain : (n : Nginx) → IsPlainNginx n → IsPlain (stream_part n)
unfolding stream_part braces
stream_part-IsPlain n h =
    let locations =
      braces-for_each stream_location [] IsPlainLocation stream_location-IsPlain n.locations
        h.locations in
    rw (braces-concat, locations, times-empty) refl

address-IsPlain : (vip : String) → IsPlain vip → IsPlain (concat (vip ∷ ":" ∷ []))
unfolding braces
address-IsPlain vip h = braces-concat (vip ∷ ":" ∷ []) ∙ rw h refl

-- The braces of the file with those of its upstreams and of its server in their place.
braces-nginx_text :
    (n : Nginx)
    → IsPlainNginx n
    → braces (nginx_text n)
      ≡ times (length n.pools) pair
        ++ (true
            ∷ (braces (if n.protocol == "HTTP" then http_part n else stream_part n)
                ++ (false ∷ [])))
unfolding nginx_text braces
braces-nginx_text n h =
    let pools = braces-for_each (upstream n) pair IsPlainPool (braces-upstream n) n.pools h.pools in
    let address =
      text_if-IsPlain (not (n.vip == "")) (concat (n.vip ∷ ":" ∷ []))
        (address-IsPlain n.vip h.vip) in
    let udp = text_if-IsPlain (n.protocol == "UDP") "udp" refl in
    rw (braces-concat, pools, address, int_text-IsPlain n.port, udp) refl

-- A server closes its brace behind either part.
part-closes :
    (http : Bool) (n : Nginx)
    → IsPlainNginx n
    → nest 1 0 (braces (if http then http_part n else stream_part n) ++ (false ∷ [])) ≡ (0, 0)
unfolding nest
part-closes true n h =
    rw (braces-http_part n h, append_assoc (times (length n.locations) pair))
      (times-IsBalanced pair pair-IsBalanced (length n.locations) 1 0 _)
part-closes false n h = rw (stream_part-IsPlain n h) refl

-- The file of a layer 7 load balancer, whose texts have no braces, read from its start to its end:
-- every closing brace closes one that is open, and no brace stays open.
pub nginx_text-braces : (n : Nginx) → IsPlainNginx n → nest 0 0 (braces (nginx_text n)) ≡ (0, 0)
unfolding nest
nginx_text-braces n h = rw (braces-nginx_text n h) (
    times-IsBalanced pair pair-IsBalanced (length n.pools) 0 0 _
    ∙ part-closes (n.protocol == "HTTP") n h)

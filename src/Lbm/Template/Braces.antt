-- ===== src/Lbm/Template/Braces.antt =====
-- The braces of the file of a layer 4 load balancer.
use lbmanager.Base.{
  ◌≡◌, refl, ap, arith, ◌∙◌, ℕ, ◌*◌, ◌++◌, String, List, Bool, true, false, not, [], ◌∷◌, ◌==◌,
  ==_iff, nat_eq, string_eq, if◌then◌else◌, length, All, Bool-cases, inl, inr,
}
use lbmanager.Net.{decimal}
use lbmanager.Lbm.Common.{Backend}
use lbmanager.Lbm.Service.{LvsInner}
use lbmanager.Lbm.Template.Nesting.{
  braces, nest, IsPlain, IsBalanced, IsCloser, braces-concat, braces-for_each, decimal-IsPlain,
  int_text-IsPlain, text_if-IsPlain, if-IsPlain, option-IsPlain, times, times-IsBalanced,
  times-IsCloser, nest-closing,
}
use lbmanager.Lbm.Template.Lvs.{health_check, real_server, lvs_text}

-- The texts that fill in the template have no braces.
pub record IsPlainInner (i : LvsInner) : Type 0 where
  pub vip : IsPlain i.lvs.vip
  pub strategy : IsPlain i.lvs.conf.strategy
  pub kind : IsPlain i.lvs.conf.kind
  pub group : IsPlain i.l_addr_group
  pub script : IsPlain i.k_conf.misc_script
  pub url : IsPlain i.lvs.monitor.url_path
  pub servers : All (λ be. IsPlain be.ip) i.lvs.servers

-- How many closing braces a server has too many.
abbrev pub excess : LvsInner → ℕ
excess i = if i.lvs.monitor.type == "HTTP" then 1 else 0

other_type : (t : String) → (t == "MISC") ≡ true → (t == "HTTP") ≡ false
other_type t h = rw ((==_iff t "MISC").0 h) refl

-- The braces of a server with an HTTP check, and of one with another check.
abbrev http_server : List Bool
http_server = true ∷ true ∷ true ∷ false ∷ true ∷ false ∷ false ∷ false ∷ false ∷ []

abbrev other_server : List Bool
other_server = true ∷ true ∷ false ∷ false ∷ []

abbrev server_braces : LvsInner → List Bool
server_braces i = if i.lvs.monitor.type == "HTTP" then http_server else other_server

http_server-IsCloser : IsCloser http_server
unfolding nest
http_server-IsCloser opened stray r = refl

other_server-IsBalanced : IsBalanced other_server
unfolding nest
other_server-IsBalanced opened stray r = refl

module _ (i : LvsInner) (be : Backend) (script : IsPlain i.k_conf.misc_script)
    (url : IsPlain i.lvs.monitor.url_path) (ip : IsPlain be.ip) where
  -- What the check adds between the braces of its server.
  inside : true ∷ braces (health_check i be) ++ (false ∷ []) ≡ server_braces i
  unfolding health_check braces
  inside =
      let port = int_text-IsPlain be.port in
      let timeout = int_text-IsPlain i.lvs.monitor.timeout in
      let code = int_text-IsPlain i.lvs.monitor.status_code in
      let retries = int_text-IsPlain i.lvs.monitor.max_retries in
      let delay = int_text-IsPlain i.lvs.monitor.delay in
      elim (Bool-cases (i.lvs.monitor.type == "MISC")) [
        | inl misc ↦
            rw (misc, other_type i.lvs.monitor.type misc, braces-concat, script, ip, port, timeout)
              refl
        | inr other ↦ elim (Bool-cases (i.lvs.monitor.type == "HTTP")) [
          | inl http ↦ rw (other, http, braces-concat, url, code, timeout, retries) refl
          | inr tcp ↦ rw (other, tcp, braces-concat, timeout, retries, delay) refl
        ]
      ]

  braces-real_server : braces (real_server i be) ≡ server_braces i
  unfolding real_server braces
  braces-real_server =
      rw (braces-concat, ip, int_text-IsPlain be.port, int_text-IsPlain be.weight) inside

-- The braces of the file with those of its servers in their place.
braces-lvs_text :
    (i : LvsInner)
    → IsPlainInner i
    → braces (lvs_text i)
      ≡ true ∷ false ∷ true ∷ (times (length i.lvs.servers) (server_braces i) ++ (false ∷ []))
unfolding lvs_text braces
braces-lvs_text i h =
    let servers =
      braces-for_each (real_server i) (server_braces i) (λ be. IsPlain be.ip)
        (λ be p. braces-real_server i be h.script h.url p) i.lvs.servers h.servers in
    let strategy =
      if-IsPlain (not (i.lvs.conf.strategy == "")) i.lvs.conf.strategy "rr" h.strategy refl in
    let kind = if-IsPlain (not (i.lvs.conf.kind == "")) i.lvs.conf.kind "FNAT" h.kind refl in
    let protocol = if-IsPlain (not (i.lvs.protocol == "UDP")) "TCP" "UDP" refl refl in
    let timeout =
      option-IsPlain (not (i.lvs.conf.persistence_timeout == 0)) "persistence_timeout "
        (decimal i.lvs.conf.persistence_timeout) refl
        (decimal-IsPlain i.lvs.conf.persistence_timeout) in
    let syn = text_if-IsPlain i.lvs.conf.syn_proxy "syn_proxy" refl in
    let bps =
      option-IsPlain (not (i.lvs.conf.bps_limit == 0)) "bps_limit " (decimal i.lvs.conf.bps_limit)
        refl (decimal-IsPlain i.lvs.conf.bps_limit) in
    let cps =
      option-IsPlain (not (i.lvs.conf.cps_limit == 0)) "cps_limit " (decimal i.lvs.conf.cps_limit)
        refl (decimal-IsPlain i.lvs.conf.cps_limit) in
    let group =
      option-IsPlain (not (i.l_addr_group == "")) "laddr_group_name " i.l_addr_group refl h.group in
    rw
      (
        braces-concat,
        h.vip,
        int_text-IsPlain i.lvs.port,
        int_text-IsPlain i.lvs.monitor.interval,
        strategy,
        kind,
        protocol,
        timeout,
        syn,
        bps,
        cps,
        group,
        servers,
      )
      refl

-- The file of a layer 4 load balancer, whose texts have no braces, read from its start to its end:
-- no brace stays open, and every closing brace closes one that is open; but for an HTTP check as
-- many closing braces as there are servers close none.
pub lvs_text-braces :
    (i : LvsInner)
    → IsPlainInner i
    → nest 0 0 (braces (lvs_text i)) ≡ (0, excess i * length i.lvs.servers)
unfolding nest
lvs_text-braces i h = elim (Bool-cases (i.lvs.monitor.type == "HTTP")) [
  | inl http ↦
      rw (braces-lvs_text i h, http)
        (times-IsCloser http_server http_server-IsCloser (length i.lvs.servers) 1 0 (false ∷ [])
          ∙ nest-closing (length i.lvs.servers))
  | inr other ↦
      rw (braces-lvs_text i h, other)
        (times-IsBalanced other_server other_server-IsBalanced (length i.lvs.servers) 1 0
            (false ∷ [])
          ∙ ap (λ n. (0, n)) (omega arith))
]

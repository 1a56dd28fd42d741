-- ===== src/Registry/Domains.antt =====
-- Templates registered by backend/app/core/commands (domain, nginx, ssl).
use frappe_os.Base.{true, false, List, [], ◌∷◌, none}
use frappe_os.Permissions.{ssl_manage}
use frappe_os.Templates.{CommandTemplate}
use frappe_os.Registry.Patterns.{abs_path, domain_id, domain_name, email, site_name}
use frappe_os.Registry.Specs.{matched, one_of, path_like, template, word_of, ssl_states}

unfoldable pub domain_dns_check : CommandTemplate
domain_dns_check =
    template "domain.dns_check" (word_of "true" ∷ []) none
      (matched "domain" domain_name
        ∷ matched "domain_id" domain_id
        ∷ matched "site" site_name
        ∷ path_like (matched "bench_path" abs_path)
        ∷ [])
      "DnsCheckAction" true false ssl_manage

unfoldable pub nginx_render_vhost : CommandTemplate
nginx_render_vhost =
    record (template "nginx.render_vhost" (word_of "true" ∷ []) none
      (matched "domain" domain_name
        ∷ matched "domain_id" domain_id
        ∷ matched "site" site_name
        ∷ path_like (matched "bench_path" abs_path)
        ∷ one_of "ssl" ssl_states
        ∷ [])
      "RenderVhostAction" false true ssl_manage) { writes_config = "nginx_vhosts" ∷ [] }

unfoldable pub ssl_certbot_issue : CommandTemplate
ssl_certbot_issue =
    template "ssl.certbot_issue" (word_of "true" ∷ []) none
      (matched "domain" domain_name
        ∷ matched "domain_id" domain_id
        ∷ matched "site" site_name
        ∷ path_like (matched "bench_path" abs_path)
        ∷ matched "email" email
        ∷ [])
      "CertbotIssueAction" false true ssl_manage

unfoldable pub ssl_certbot_renew : CommandTemplate
ssl_certbot_renew =
    template "ssl.certbot_renew" (word_of "true" ∷ []) none
      (matched "site" site_name ∷ path_like (matched "bench_path" abs_path) ∷ [])
      "CertbotRenewAction" true true ssl_manage

unfoldable pub ssl_expiry_scan : CommandTemplate
ssl_expiry_scan =
    template "ssl.expiry_scan" (word_of "true" ∷ []) none
      (matched "site" site_name ∷ path_like (matched "bench_path" abs_path) ∷ [])
      "SslExpiryScanAction" true false ssl_manage

unfoldable pub domains_templates : List CommandTemplate
unfolding domain_dns_check nginx_render_vhost ssl_certbot_issue ssl_certbot_renew ssl_expiry_scan
domains_templates =
    domain_dns_check ∷ nginx_render_vhost ∷ ssl_certbot_issue ∷ ssl_certbot_renew ∷ ssl_expiry_scan
    ∷ []

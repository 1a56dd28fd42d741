-- ===== src/Registry/Tools.antt =====
-- Templates registered by backend/app/core/commands (tool).
use frappe_os.Base.{true, false, List, [], ◌∷◌, none, some}
use frappe_os.Permissions.{server_manage}
use frappe_os.Templates.{lit, hole, CommandTemplate}
use frappe_os.Registry.Specs.{one_of, template, word_of, node_majors}

unfoldable pub tool_install_git : CommandTemplate
tool_install_git =
    record (template "tool.install_git"
      (word_of "sudo"
        ∷ word_of "-n"
        ∷ word_of "/usr/bin/apt-get"
        ∷ word_of "install"
        ∷ word_of "-y"
        ∷ word_of "git"
        ∷ [])
      none ([]) "InstallToolAction" false true server_manage) { lock_class = some "tools" }

unfoldable pub tool_install_redis : CommandTemplate
tool_install_redis =
    record (template "tool.install_redis"
      (word_of "sudo"
        ∷ word_of "-n"
        ∷ word_of "/usr/bin/apt-get"
        ∷ word_of "install"
        ∷ word_of "-y"
        ∷ word_of "redis-server"
        ∷ [])
      none ([]) "InstallToolAction" false true server_manage) { lock_class = some "tools" }

unfoldable pub tool_install_nginx : CommandTemplate
tool_install_nginx =
    record (template "tool.install_nginx"
      (word_of "sudo"
        ∷ word_of "-n"
        ∷ word_of "/usr/bin/apt-get"
        ∷ word_of "install"
        ∷ word_of "-y"
        ∷ word_of "nginx"
        ∷ [])
      none ([]) "InstallToolAction" false true server_manage) { lock_class = some "tools" }

unfoldable pub tool_install_supervisor : CommandTemplate
tool_install_supervisor =
    record (template "tool.install_supervisor"
      (word_of "sudo"
        ∷ word_of "-n"
        ∷ word_of "/usr/bin/apt-get"
        ∷ word_of "install"
        ∷ word_of "-y"
        ∷ word_of "supervisor"
        ∷ [])
      none ([]) "InstallToolAction" false true server_manage) { lock_class = some "tools" }

unfoldable pub tool_install_htop : CommandTemplate
tool_install_htop =
    record (template "tool.install_htop"
      (word_of "sudo"
        ∷ word_of "-n"
        ∷ word_of "/usr/bin/apt-get"
        ∷ word_of "install"
        ∷ word_of "-y"
        ∷ word_of "htop"
        ∷ [])
      none ([]) "InstallToolAction" false true server_manage) { lock_class = some "tools" }

unfoldable pub tool_install_jq : CommandTemplate
tool_install_jq =
    record (template "tool.install_jq"
      (word_of "sudo"
        ∷ word_of "-n"
        ∷ word_of "/usr/bin/apt-get"
        ∷ word_of "install"
        ∷ word_of "-y"
        ∷ word_of "jq"
        ∷ [])
      none ([]) "InstallToolAction" false true server_manage) { lock_class = some "tools" }

unfoldable pub tool_install_uv : CommandTemplate
tool_install_uv =
    record (template "tool.install_uv"
      (word_of "bash"
        ∷ word_of "-lc"
        ∷ word_of "set -euo pipefail; curl -LsSf https://astral.sh/uv/install.sh | sh"
        ∷ [])
      none ([]) "InstallToolAction" false true server_manage) { lock_class = some "tools" }

unfoldable pub tool_install_node : CommandTemplate
tool_install_node =
    record (template "tool.install_node"
      (word_of "bash"
        ∷ word_of "-lc"
        ∷ (lit
              "set -euo pipefail; export NVM_DIR=\"$HOME/.nvm\"; if [ ! -s \"$NVM_DIR/nvm.sh\" ]; then curl -fsSL https://raw.githubusercontent.com/nvm-sh/nvm/v0.40.1/install.sh | bash; fi; . \"$NVM_DIR/nvm.sh\"; nvm install \""
            ∷ hole "node_major"
            ∷ lit "\" && nvm alias default \""
            ∷ hole "node_major"
            ∷ lit "\""
            ∷ [])
        ∷ [])
      none (one_of "node_major" node_majors ∷ []) "InstallToolAction" false true server_manage) {
        lock_class = some "tools";
      }

unfoldable pub tool_install_bench : CommandTemplate
tool_install_bench =
    record (template "tool.install_bench"
      (word_of "bash"
        ∷ word_of "-lc"
        ∷ word_of "set -euo pipefail; uv tool install --force frappe-bench"
        ∷ [])
      none ([]) "InstallToolAction" false true server_manage) { lock_class = some "tools" }

unfoldable pub tool_install_gh : CommandTemplate
tool_install_gh =
    record (template "tool.install_gh"
      (word_of "bash"
        ∷ word_of "-lc"
        ∷ word_of
            "set -euo pipefail; ver=2.63.2; tmp=$(mktemp -d); trap 'rm -rf \"$tmp\"' EXIT; curl -fsSL -o \"$tmp/gh.tar.gz\" \"https://github.com/cli/cli/releases/download/v$ver/gh_\"$ver\"_linux_amd64.tar.gz\"; tar -xzf \"$tmp/gh.tar.gz\" -C \"$tmp\"; mkdir -p \"$HOME/.local/bin\"; install -m 0755 \"$tmp/gh_\"$ver\"_linux_amd64/bin/gh\" \"$HOME/.local/bin/gh\""
        ∷ [])
      none ([]) "InstallToolAction" false true server_manage) { lock_class = some "tools" }

unfoldable pub tool_install_code_server : CommandTemplate
tool_install_code_server =
    record (template "tool.install_code_server"
      (word_of "bash"
        ∷ word_of "-lc"
        ∷ word_of
            "set -euo pipefail; curl -fsSL https://code-server.dev/install.sh | sh -s -- --method standalone --prefix \"$HOME/.local\""
        ∷ [])
      none ([]) "InstallToolAction" false true server_manage) { lock_class = some "tools" }

unfoldable pub tool_install_claude_code : CommandTemplate
tool_install_claude_code =
    record (template "tool.install_claude_code"
      (word_of "bash"
        ∷ word_of "-lc"
        ∷ word_of "set -euo pipefail; curl -fsSL https://claude.ai/install.sh | bash"
        ∷ [])
      none ([]) "InstallToolAction" false true server_manage) { lock_class = some "tools" }

unfoldable pub tool_install_wkhtmltopdf : CommandTemplate
tool_install_wkhtmltopdf =
    record (template "tool.install_wkhtmltopdf"
      (word_of "sudo"
        ∷ word_of "-n"
        ∷ word_of "/usr/local/sbin/fdm-wkhtmltopdf"
        ∷ word_of "install"
        ∷ [])
      none ([]) "InstallToolAction" false true server_manage) { lock_class = some "tools" }

unfoldable pub tools_templates : List CommandTemplate
unfolding tool_install_git tool_install_redis tool_install_nginx tool_install_supervisor
    tool_install_htop tool_install_jq tool_install_uv tool_install_node tool_install_bench
    tool_install_gh tool_install_code_server tool_install_claude_code tool_install_wkhtmltopdf
tools_templates =
    tool_install_git ∷ tool_install_redis ∷ tool_install_nginx ∷ tool_install_supervisor
    ∷ tool_install_htop ∷ tool_install_jq ∷ tool_install_uv ∷ tool_install_node ∷ tool_install_bench
    ∷ tool_install_gh ∷ tool_install_code_server ∷ tool_install_claude_code
    ∷ tool_install_wkhtmltopdf ∷ []

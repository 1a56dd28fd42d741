-- ===== src/Registry/Patterns.antt =====
-- The parameter whitelists of backend/app/core/commands/registry.py and report_actions.py as syntax
-- trees, and the enumerations.
use frappe_os.Base.{[], ◌∷◌, none, some}
use frappe_os.Regex.{range, word, space, Regex, class, cat, repeat}

-- /[\w./-]{1,300}
abbrev pub abs_path : Regex
abs_path =
    cat (class (range b'/' b'/' ∷ [])) (
      repeat (class (word ∷ range b'.' b'.' ∷ range b'/' b'/' ∷ range b'-' b'-' ∷ [])) 1 (some 300))

-- [\w .,:@/=+()#-]{1,200}
abbrev pub ai_commit_msg : Regex
ai_commit_msg =
    repeat
      (class (
        word
        ∷ range 32 32
        ∷ range b'.' b'.'
        ∷ range b',' b','
        ∷ range b':' b':'
        ∷ range b'@' b'@'
        ∷ range b'/' b'/'
        ∷ range b'=' b'='
        ∷ range b'+' b'+'
        ∷ range b'(' b'('
        ∷ range b')' b')'
        ∷ range b'#' b'#'
        ∷ range b'-' b'-'
        ∷ []))
      1 (some 200)

-- [a-z0-9_]{1,60}
abbrev pub app_name : Regex
app_name = repeat (class (range b'a' b'z' ∷ range b'0' b'9' ∷ range b'_' b'_' ∷ [])) 1 (some 60)

-- [A-Za-z0-9._:/@-]{1,200}
abbrev pub app_source : Regex
app_source =
    repeat
      (class (
        range b'A' b'Z'
        ∷ range b'a' b'z'
        ∷ range b'0' b'9'
        ∷ range b'.' b'.'
        ∷ range b'_' b'_'
        ∷ range b':' b':'
        ∷ range b'/' b'/'
        ∷ range b'@' b'@'
        ∷ range b'-' b'-'
        ∷ []))
      1 (some 200)

-- (/[\w./-]{0,300})(,/[\w./-]{0,300})*
abbrev pub base_paths : Regex
base_paths =
    cat
      (cat (class (range b'/' b'/' ∷ [])) (
        repeat (class (word ∷ range b'.' b'.' ∷ range b'/' b'/' ∷ range b'-' b'-' ∷ [])) 0
          (some 300)))
      (repeat
        (cat (class (range b',' b',' ∷ [])) (
          cat (class (range b'/' b'/' ∷ [])) (
            repeat (class (word ∷ range b'.' b'.' ∷ range b'/' b'/' ∷ range b'-' b'-' ∷ [])) 0
              (some 300))))
        0 none)

-- [a-z0-9][a-z0-9._-]{1,80}
abbrev pub bench_name : Regex
bench_name = cat (class (range b'a' b'z' ∷ range b'0' b'9' ∷ [])) (
    repeat
      (class (
        range b'a' b'z'
        ∷ range b'0' b'9'
        ∷ range b'.' b'.'
        ∷ range b'_' b'_'
        ∷ range b'-' b'-'
        ∷ []))
      1 (some 80))

-- [A-Za-z0-9._/-]{1,100}
abbrev pub branch_name : Regex
branch_name =
    repeat
      (class (
        range b'A' b'Z'
        ∷ range b'a' b'z'
        ∷ range b'0' b'9'
        ∷ range b'.' b'.'
        ∷ range b'_' b'_'
        ∷ range b'/' b'/'
        ∷ range b'-' b'-'
        ∷ []))
      1 (some 100)

-- [a-z0-9_]{1,60}~[A-Za-z0-9._:/@-]{1,200}~[A-Za-z0-9._/-]{1,100}(,[a-z0-9_]{1,60}~[A-Za-z0-9._:/@-]{1,200}~[A-Za-z0-9._/-]{1,100})*
abbrev pub dep_plan : Regex
dep_plan =
    cat (repeat (class (range b'a' b'z' ∷ range b'0' b'9' ∷ range b'_' b'_' ∷ [])) 1 (some 60)) (
      cat (class (range b'~' b'~' ∷ [])) (
        cat
          (repeat
            (class (
              range b'A' b'Z'
              ∷ range b'a' b'z'
              ∷ range b'0' b'9'
              ∷ range b'.' b'.'
              ∷ range b'_' b'_'
              ∷ range b':' b':'
              ∷ range b'/' b'/'
              ∷ range b'@' b'@'
              ∷ range b'-' b'-'
              ∷ []))
            1 (some 200))
          (cat (class (range b'~' b'~' ∷ [])) (
            cat
              (repeat
                (class (
                  range b'A' b'Z'
                  ∷ range b'a' b'z'
                  ∷ range b'0' b'9'
                  ∷ range b'.' b'.'
                  ∷ range b'_' b'_'
                  ∷ range b'/' b'/'
                  ∷ range b'-' b'-'
                  ∷ []))
                1 (some 100))
              (repeat
                (cat (class (range b',' b',' ∷ [])) (
                  cat
                    (repeat (class (range b'a' b'z' ∷ range b'0' b'9' ∷ range b'_' b'_' ∷ [])) 1
                      (some 60))
                    (cat (class (range b'~' b'~' ∷ [])) (
                      cat
                        (repeat
                          (class (
                            range b'A' b'Z'
                            ∷ range b'a' b'z'
                            ∷ range b'0' b'9'
                            ∷ range b'.' b'.'
                            ∷ range b'_' b'_'
                            ∷ range b':' b':'
                            ∷ range b'/' b'/'
                            ∷ range b'@' b'@'
                            ∷ range b'-' b'-'
                            ∷ []))
                          1 (some 200))
                        (cat (class (range b'~' b'~' ∷ [])) (
                          repeat
                            (class (
                              range b'A' b'Z'
                              ∷ range b'a' b'z'
                              ∷ range b'0' b'9'
                              ∷ range b'.' b'.'
                              ∷ range b'_' b'_'
                              ∷ range b'/' b'/'
                              ∷ range b'-' b'-'
                              ∷ []))
                            1 (some 100)))))))
                0 none)))))

-- [\s!-~]{1,10000}
abbrev pub deploy_key : Regex
deploy_key = repeat (class (space ∷ range b'!' b'~' ∷ [])) 1 (some 10000)

-- [A-Za-z][A-Za-z ]{1,60}
abbrev pub doctype : Regex
doctype =
    cat (class (range b'A' b'Z' ∷ range b'a' b'z' ∷ []))
      (repeat (class (range b'A' b'Z' ∷ range b'a' b'z' ∷ range 32 32 ∷ [])) 1 (some 60))

-- [0-9]{1,12}
abbrev pub domain_id : Regex
domain_id = repeat (class (range b'0' b'9' ∷ [])) 1 (some 12)

-- [a-z0-9](?:[a-z0-9-]{0,62})(?:\.[a-z0-9](?:[a-z0-9-]{0,62}))+
abbrev pub domain_name : Regex
domain_name = cat (class (range b'a' b'z' ∷ range b'0' b'9' ∷ [])) (
    cat (repeat (class (range b'a' b'z' ∷ range b'0' b'9' ∷ range b'-' b'-' ∷ [])) 0 (some 62)) (
      repeat
        (cat (class (range b'.' b'.' ∷ [])) (
          cat (class (range b'a' b'z' ∷ range b'0' b'9' ∷ [])) (
            repeat (class (range b'a' b'z' ∷ range b'0' b'9' ∷ range b'-' b'-' ∷ [])) 0 (some 62))))
        1 none))

-- [a-zA-Z_][a-zA-Z0-9_.]{1,120}
abbrev pub dotted_method : Regex
dotted_method = cat (class (range b'a' b'z' ∷ range b'A' b'Z' ∷ range b'_' b'_' ∷ [])) (
    repeat
      (class (
        range b'a' b'z'
        ∷ range b'A' b'Z'
        ∷ range b'0' b'9'
        ∷ range b'_' b'_'
        ∷ range b'.' b'.'
        ∷ []))
      1 (some 120))

-- [a-zA-Z0-9._%+-]{1,64}@[a-zA-Z0-9.-]{1,190}\.[a-zA-Z]{2,63}
abbrev pub email : Regex
email =
    cat
      (repeat
        (class (
          range b'a' b'z'
          ∷ range b'A' b'Z'
          ∷ range b'0' b'9'
          ∷ range b'.' b'.'
          ∷ range b'_' b'_'
          ∷ range b'%' b'%'
          ∷ range b'+' b'+'
          ∷ range b'-' b'-'
          ∷ []))
        1 (some 64))
      (cat (class (range b'@' b'@' ∷ [])) (
        cat
          (repeat
            (class (
              range b'a' b'z'
              ∷ range b'A' b'Z'
              ∷ range b'0' b'9'
              ∷ range b'.' b'.'
              ∷ range b'-' b'-'
              ∷ []))
            1 (some 190))
          (cat (class (range b'.' b'.' ∷ []))
            (repeat (class (range b'a' b'z' ∷ range b'A' b'Z' ∷ [])) 2 (some 63)))))

-- [A-Za-z0-9+/=_-]{1,120}
abbrev pub encryption_key : Regex
encryption_key =
    repeat
      (class (
        range b'A' b'Z'
        ∷ range b'a' b'z'
        ∷ range b'0' b'9'
        ∷ range b'+' b'+'
        ∷ range b'/' b'/'
        ∷ range b'=' b'='
        ∷ range b'_' b'_'
        ∷ range b'-' b'-'
        ∷ []))
      1 (some 120)

-- [0-9a-f]{7,64}
abbrev pub git_sha : Regex
git_sha = repeat (class (range b'0' b'9' ∷ range b'a' b'f' ∷ [])) 7 (some 64)

-- [0-9]{1,4}
abbrev pub inline_range_days : Regex
inline_range_days = repeat (class (range b'0' b'9' ∷ [])) 1 (some 4)

-- [0-9]{1,3}
abbrev pub inline_within_days : Regex
inline_within_days = repeat (class (range b'0' b'9' ∷ [])) 1 (some 3)

-- [a-z_][a-z0-9_-]{0,31}
abbrev pub linux_user : Regex
linux_user = cat (class (range b'a' b'z' ∷ range b'_' b'_' ∷ [])) (
    repeat (class (range b'a' b'z' ∷ range b'0' b'9' ∷ range b'_' b'_' ∷ range b'-' b'-' ∷ [])) 0
      (some 31))

-- [1-9][0-9]{0,4}
abbrev pub positive_int : Regex
positive_int = cat (class (range b'1' b'9' ∷ [])) (repeat (class (range b'0' b'9' ∷ [])) 0 (some 4))

-- [A-Za-z0-9._%+\-]+@[A-Za-z0-9.\-]+\.[A-Za-z]{2}(,[A-Za-z0-9._%+\-]+@[A-Za-z0-9.\-]+\.[A-Za-z]{2})*
abbrev pub recipients_re : Regex
recipients_re =
    cat
      (repeat
        (class (
          range b'A' b'Z'
          ∷ range b'a' b'z'
          ∷ range b'0' b'9'
          ∷ range b'.' b'.'
          ∷ range b'_' b'_'
          ∷ range b'%' b'%'
          ∷ range b'+' b'+'
          ∷ range b'-' b'-'
          ∷ []))
        1 none)
      (cat (class (range b'@' b'@' ∷ [])) (
        cat
          (repeat
            (class (
              range b'A' b'Z'
              ∷ range b'a' b'z'
              ∷ range b'0' b'9'
              ∷ range b'.' b'.'
              ∷ range b'-' b'-'
              ∷ []))
            1 none)
          (cat (class (range b'.' b'.' ∷ [])) (
            cat (repeat (class (range b'A' b'Z' ∷ range b'a' b'z' ∷ [])) 2 none) (
              repeat
                (cat (class (range b',' b',' ∷ [])) (
                  cat
                    (repeat
                      (class (
                        range b'A' b'Z'
                        ∷ range b'a' b'z'
                        ∷ range b'0' b'9'
                        ∷ range b'.' b'.'
                        ∷ range b'_' b'_'
                        ∷ range b'%' b'%'
                        ∷ range b'+' b'+'
                        ∷ range b'-' b'-'
                        ∷ []))
                      1 none)
                    (cat (class (range b'@' b'@' ∷ [])) (
                      cat
                        (repeat
                          (class (
                            range b'A' b'Z'
                            ∷ range b'a' b'z'
                            ∷ range b'0' b'9'
                            ∷ range b'.' b'.'
                            ∷ range b'-' b'-'
                            ∷ []))
                          1 none)
                        (cat (class (range b'.' b'.' ∷ []))
                          (repeat (class (range b'A' b'Z' ∷ range b'a' b'z' ∷ [])) 2 none))))))
                0 none)))))

-- [0-9]{1,3}%
abbrev pub restic_check_subset : Regex
restic_check_subset =
    cat (repeat (class (range b'0' b'9' ∷ [])) 1 (some 3)) (class (range b'%' b'%' ∷ []))

-- [A-Za-z0-9][A-Za-z0-9._-]{0,120}
abbrev pub restic_host : Regex
restic_host = cat (class (range b'A' b'Z' ∷ range b'a' b'z' ∷ range b'0' b'9' ∷ [])) (
    repeat
      (class (
        range b'A' b'Z'
        ∷ range b'a' b'z'
        ∷ range b'0' b'9'
        ∷ range b'.' b'.'
        ∷ range b'_' b'_'
        ∷ range b'-' b'-'
        ∷ []))
      0 (some 120))

-- s3:[A-Za-z0-9._:/-]{1,300}
abbrev pub restic_repo_uri : Regex
restic_repo_uri = cat (class (range b's' b's' ∷ [])) (
    cat (class (range b'3' b'3' ∷ [])) (
      cat (class (range b':' b':' ∷ [])) (
        repeat
          (class (
            range b'A' b'Z'
            ∷ range b'a' b'z'
            ∷ range b'0' b'9'
            ∷ range b'.' b'.'
            ∷ range b'_' b'_'
            ∷ range b':' b':'
            ∷ range b'/' b'/'
            ∷ range b'-' b'-'
            ∷ []))
          1 (some 300))))

-- [\w .,:@/=+-]{1,200}
abbrev pub safe_text : Regex
safe_text =
    repeat
      (class (
        word
        ∷ range 32 32
        ∷ range b'.' b'.'
        ∷ range b',' b','
        ∷ range b':' b':'
        ∷ range b'@' b'@'
        ∷ range b'/' b'/'
        ∷ range b'=' b'='
        ∷ range b'+' b'+'
        ∷ range b'-' b'-'
        ∷ []))
      1 (some 200)

-- [ -~]{1,128}
abbrev pub secret_text : Regex
secret_text = repeat (class (range 32 b'~' ∷ [])) 1 (some 128)

-- [a-z0-9][a-z0-9.-]{1,80}
abbrev pub site_name : Regex
site_name = cat (class (range b'a' b'z' ∷ range b'0' b'9' ∷ [])) (
    repeat (class (range b'a' b'z' ∷ range b'0' b'9' ∷ range b'.' b'.' ∷ range b'-' b'-' ∷ [])) 1
      (some 80))

-- [a-z0-9][a-z0-9._-]{0,80}:\*
abbrev pub supervisor_group : Regex
supervisor_group = cat (class (range b'a' b'z' ∷ range b'0' b'9' ∷ [])) (
    cat
      (repeat
        (class (
          range b'a' b'z'
          ∷ range b'0' b'9'
          ∷ range b'.' b'.'
          ∷ range b'_' b'_'
          ∷ range b'-' b'-'
          ∷ []))
        0 (some 80))
      (cat (class (range b':' b':' ∷ [])) (class (range b'*' b'*' ∷ []))))

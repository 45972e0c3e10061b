-- ===== src/AppProcess/Agreement.antt =====
-- Both main functions understand the command line of a program alike.
use xposed.Prelude.{
  Bool-cases, bytes_of, eqb_text, starts_with, Bytes, ◌≡◌, ◌≢◌, inl, inr, Option, none, some, List,
  [], ◌∷◌, drop, refl, true,
}
use xposed.AppProcess.Args.{Flags, parse_flags, no_flags}
use xposed.AppProcess.Older.{OlderFlags, parse_older, no_older_flags}

-- The text behind a pointer that may be null, which counts as empty.
abbrev pub text_or_empty : Option Bytes → Bytes
text_or_empty none = []
text_or_empty (some s) = s

-- The older flags say what the newer ones say.
pub record Agrees (n : Flags) (o : OlderFlags) : Type 0 where
  pub zygote_same : o.zygote ≡ n.zygote
  pub server_same : o.start_system_server ≡ n.start_system_server
  pub application_same : o.application ≡ n.application
  pub nice_name_same : text_or_empty o.nice_name ≡ n.nice_name
  pub class_same : o.class_name ≡ some n.class_name
  pub rest_same : o.rest ≡ n.rest

-- The older flags inside the loop.
abbrev older_of : (parent_dir : Bytes) → Flags → (nice_name : Option Bytes) → OlderFlags
older_of parent_dir f nice_name = record {
  zygote = f.zygote;
  start_system_server = f.start_system_server;
  application = f.application;
  parent_dir = some parent_dir;
  nice_name = nice_name;
  class_name = none;
  rest = [];
}

loop-Agrees :
    (p : Bytes) (args : List Bytes) (f : Flags) (name : Option Bytes)
    → text_or_empty name ≡ f.nice_name
    → f.class_name ≡ []
    → (parse_flags (bytes_of "zygote") args f).class_name ≢ []
    → Agrees (parse_flags (bytes_of "zygote") args f) (parse_older args (older_of p f name))
unfolding parse_flags parse_older
loop-Agrees p [] f name same unnamed found = absurd (found unnamed)
loop-Agrees p (arg ∷ args) f name same unnamed found =
    elim (Bool-cases (eqb_text arg (bytes_of "--zygote"))) [
      | inl z ↦ rw z (
          loop-Agrees p args (record f { zygote = true; nice_name = bytes_of "zygote" })
            (some (bytes_of "zygote")) refl unnamed (λ e. found (rw z e)))
      | inr z ↦ elim (Bool-cases (eqb_text arg (bytes_of "--start-system-server"))) [
        | inl s ↦
            rw (z, s)
              (loop-Agrees p args (record f { start_system_server = true }) name same unnamed
                (λ e. found (rw (z, s) e)))
        | inr s ↦ elim (Bool-cases (eqb_text arg (bytes_of "--application"))) [
          | inl a ↦
              rw (z, s, a)
                (loop-Agrees p args (record f { application = true }) name same unnamed
                  (λ e. found (rw (z, s, a) e)))
          | inr a ↦ elim (Bool-cases (starts_with (bytes_of "--nice-name=") arg)) [
            | inl n ↦
                rw (z, s, a, n)
                  (loop-Agrees p args (record f { nice_name = drop 12 arg }) (some (drop 12 arg))
                    refl unnamed (λ e. found (rw (z, s, a, n) e)))
            | inr n ↦ elim (Bool-cases (starts_with (bytes_of "--") arg)) [
              | inl d ↦ absurd (found (rw (z, s, a, n, d) unnamed))
              | inr d ↦
                  rw (z, s, a, n, d)
                    (record {
                      zygote_same = refl;
                      server_same = refl;
                      application_same = refl;
                      nice_name_same = same;
                      class_same = refl;
                      rest_same = refl;
                    })
            ]
          ]
        ]
      ]
    ]

-- Where the newer main function finds a class on a command line behind the virtual machine's options,
-- the older one, behind the parent directory, finds the same class with the same arguments, the
-- same flags and the same name for the process, if the newer one is built with the name `zygote`.
pub parse_older-Agrees :
    (parent_dir : Bytes) (args : List Bytes)
    → (parse_flags (bytes_of "zygote") args no_flags).class_name ≢ []
    → Agrees
        (parse_flags (bytes_of "zygote") args no_flags)
        (parse_older (parent_dir ∷ args) no_older_flags)
unfolding parse_older
parse_older-Agrees parent_dir args found = loop-Agrees parent_dir args no_flags none refl refl found

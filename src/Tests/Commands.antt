-- ===== src/Tests/Commands.antt =====
-- Commands at a terminal in memory, at which every password that is typed is the prompt.
use codex_vault.Prelude.{ℤ, ◌≡◌, refl, ap, none, some, [], ◌∷◌, arith, length, ok, err}
use codex_vault.Prelude.Bytes.{ascii}
use codex_vault.Private.{default_vault_root}
use codex_vault.Protocol.{Json, DaemonStatus}
use codex_vault.Cli.{Terminal, Surroundings, user_passwd, main}
use codex_vault.Cli.Confirmed.{main-user_passwd}
use codex_vault.Tests.Passwords.{salt, data_key, nonce}
use codex_vault.Tests.Messages.{plain_json}
use codex_vault.Tests.Connections.{memory_socket, plain_response, the_status, answered}
use codex_vault.Tests.Profiles.{alice}
use codex_vault.Tests.Disk.{Disk}
use codex_vault.Tests.Host.{host}
use codex_vault.Tests.Sessions.{fresh_disk}
use codex_vault.Tests.Runs.{processes, fresh}

abbrev terminal : Terminal Disk
terminal = record {
  prompt_password = λ prompt d. (ok (ascii prompt), d);
  print = λ text d. d;
  eprint = λ text d. d;
  flush = λ d. (ok tt, d);
  read_line = λ d. (ok alice, d);
  trim = λ text. text;
}

abbrev surroundings : Surroundings
surroundings = record {
  vault_home = some (ascii "/v");
  home = none;
  vault_user = none;
  real_codex = none;
  daemon_socket = ok (ascii "/run/s");
  entropy = record {
    staging = ascii "s";
    salt = some salt;
    data_key = some data_key;
    clock = some 1700000000;
    id = ascii "6f1c";
    key_nonce = some nonce;
    archive = ascii "u";
    seed = some nonce;
  };
  salt = some salt;
  nonce = some nonce;
  uuid = ascii "u";
  fresh = fresh;
}

abbrev plain_status : Json DaemonStatus
plain_status = record {
  to_vec = λ s. ok (1 ∷ []);
  from_slice = λ bytes. elim bytes [ b ∷ rest ↦ ok the_status | [] ↦ err "EOF" ];
}

chosen : default_vault_root (some (ascii "/v")) none ≡ ok (ascii "/v")
unfolding default_vault_root
chosen = refl

main-user_passwd_example :
    main host terminal processes plain_json plain_response plain_status memory_socket
      (λ path. answered)
      50
      surroundings
      (user_passwd alice)
      fresh_disk
    ≡ some (ℤ.pos 1, fresh_disk)
main-user_passwd_example =
    main-user_passwd host terminal processes plain_json plain_response plain_status memory_socket
      (λ path. answered) 50 surroundings (ascii "/v") alice fresh_disk fresh_disk fresh_disk
      fresh_disk (ascii "Current password: ") (ascii "New password: ")
      (ascii "Confirm new password: ") chosen refl refl refl
      (λ e. absurd (omega (arith, ap length e)))

-- ===== src/Setup/Finished.antt =====
-- What `Configure` of internal/setup/setup.go has done when it succeeds.
use mathlib.Core.Path.{subst}
use tool_public_ubo.Base.{
  ◌≡◌, refl, sym, ap, ◌∙◌, false, [], ◌++◌, Option, none, some, Bool-cases, inl, inr, arith,
}
use tool_public_ubo.Base.Result.{
  Result, ok, err, map_err, >>=-eq-ok, err-ne-ok, ok-injective, map_err-ok,
}
use tool_public_ubo.Config.{Config}
use tool_public_ubo.Keygen.{Keys}
use tool_public_ubo.Remote.Client.{Client}
use tool_public_ubo.Remote.Process.{
  Ssh, run_command, write_file, has_failed, command_of, keep_host_key,
}
use tool_public_ubo.Setup.{NetworkInfo, Run}
use tool_public_ubo.Setup.Built.{IsGrubReady, build_setup_script_data-IsGrubReady}
use tool_public_ubo.Setup.Configure.{
  ConfigureError, detection, script_data, not_rendered, replies, ran_script, run_setup_script,
  json_line, key_of, parse_setup_result, pinned_path, save_pinned_key, build_data, remote_steps,
  saved, configure,
}
use tool_public_ubo.Setup.Detect.{detect_network}
use tool_public_ubo.Setup.Keyed.{server_text, build_data-files}
use tool_public_ubo.Setup.Detected.{IsDetected, detect_network-IsDetected}
use tool_public_ubo.System.Disk.{Disk, read_file, read_file-write_file}
use tool_public_ubo.System.Disk
use tool_public_ubo.Templates.Checks.{SetupScriptData}
use tool_public_ubo.Templates.SetupScript.{render_setup_script}
use tool_public_ubo.Text.Compare.{Bytes, codes, is_empty}
use tool_public_ubo.Text.Lines.{split}

-- The run answers every command with what ssh to the host gives for it.
abbrev pub Asks : Ssh → Client → Run → Type 0
Asks ssh client run =
    (cmd : Bytes)
    → ((run cmd).out ≡ (run_command ssh client cmd).0)
      × ((run cmd).failed ≡ (has_failed (ssh.exits (command_of client cmd none))))

-- The network was detected on that host and checked, the script for it with the keys of both sides was
-- uploaded and ran, and its output gave a key.
pub record IsConfigured (unmarshal : Bytes → Option Bytes) (ssh : Ssh) (client : Client)
    (c : Config) (keys : Keys) : Type 0 where
  pub run : Run
  pub info : NetworkInfo
  pub values : SetupScriptData
  pub script : Bytes
  pub key : Bytes
  pub asked : Asks ssh client run
  pub found : detect_network run c ≡ ok info
  pub detected : IsDetected info
  pub ready : IsGrubReady info values
  pub wire_guard : values.wg_server_conf ≡ server_text c keys
  pub authorized : values.authorized_keys ≡ keys.client_ssh_pub_key ++ codes "\n"
  pub rendered : render_setup_script values ≡ ok script
  pub uploaded : write_file ssh client (codes "/tmp/ubo-setup.sh") script 0o700 ≡ ok tt
  pub ran : (run_command ssh client (codes "sh /tmp/ubo-setup.sh")).1 ≡ ok tt
  pub answered :
      parse_setup_result unmarshal (run_command ssh client (codes "sh /tmp/ubo-setup.sh")).0
      ≡ ok key
  pub present : is_empty key ≡ false

replies-Asks : (ssh : Ssh) (client : Client) → Asks ssh client (replies ssh client)
unfolding run_command
replies-Asks ssh client cmd = (refl, ground arith)

ran_script-ok :
    (up : Result Bytes (Unit {0})) (reply : Bytes × Result Bytes (Unit {0})) {out : Bytes}
    → ran_script up reply ≡ ok out
    → (up ≡ ok tt) × (reply.1 ≡ ok tt) × (reply.0 ≡ out)
unfolding ran_script
ran_script-ok (err e) reply h = err-ne-ok h
ran_script-ok (ok _) (o, ok _) h = (refl, refl, ok-injective h)
ran_script-ok (ok _) (o, err e) h = err-ne-ok h

key_of-ok : (o : Option Bytes) {key : Bytes} → key_of o ≡ ok key → is_empty key ≡ false
unfolding key_of
key_of-ok none h = err-ne-ok h
key_of-ok (some k) h = elim (Bool-cases (is_empty k)) [
  | inl blank ↦ err-ne-ok (rw blank at h)
  | inr text ↦ (let same = ok-injective (rw text at h) in rw (← same) text)
]

parse_setup_result-ok :
    (unmarshal : Bytes → Option Bytes) (out : Bytes) {key : Bytes}
    → parse_setup_result unmarshal out ≡ ok key
    → is_empty key ≡ false
unfolding parse_setup_result
parse_setup_result-ok unmarshal out h =
    elim (Bool-cases (is_empty (json_line [] (split b'\n' out)))) [
      | inl blank ↦ err-ne-ok (rw blank at h)
      | inr line ↦ key_of-ok (unmarshal (json_line [] (split b'\n' out))) (rw line at h)
    ]

remote_steps-IsConfigured :
    (unmarshal : Bytes → Option Bytes) (ssh : Ssh) (client : Client) (c : Config) (keys : Keys)
    {key : Bytes}
    → remote_steps unmarshal ssh client c keys ≡ ok key
    → (done : IsConfigured unmarshal ssh client c keys) × (done.key ≡ key)
unfolding remote_steps
remote_steps-IsConfigured unmarshal ssh client c keys {key = key} h =
    let (info, h1, k1) =
      >>=-eq-ok (map_err detection (detect_network (replies ssh client) c)) _ h in
    let (values, h2, k2) = >>=-eq-ok (map_err script_data (build_data c keys info)) _ k1 in
    let (script, h3, k3) = >>=-eq-ok (map_err not_rendered (render_setup_script values)) _ k2 in
    let (out, h4, k4) =
      >>=-eq-ok (run_setup_script ssh client script) (parse_setup_result unmarshal) k3 in
    let (uploaded, ran, output) = ran_script-ok _ _ (unfold run_setup_script in h4) in
    let built = map_err-ok script_data _ h2 in
    let found = map_err-ok detection _ h1 in
    let (wire_guard, authorized) = build_data-files c keys info built in
    (
      record {
        run = replies ssh client;
        info = info;
        values = values;
        script = script;
        key = key;
        asked = replies-Asks ssh client;
        found = found;
        detected = (detect_network-IsDetected (replies ssh client) c found).0;
        ready = build_setup_script_data-IsGrubReady _ _ _ c keys info (unfold build_data in built);
        wire_guard = wire_guard;
        authorized = authorized;
        rendered = map_err-ok not_rendered _ h3;
        uploaded = uploaded;
        ran = ran;
        answered = ap (parse_setup_result unmarshal) output ∙ k4;
        present = parse_setup_result-ok unmarshal out k4;
      },
      refl,
    )

-- The key on the disk.
pub IsPinnedKey : Disk → Bytes → Bytes → Type 0
IsPinnedKey d out_dir key = read_file d (pinned_path out_dir) ≡ ok (key ++ codes "\n")

save_pinned_key-IsPinnedKey :
    (out_dir key : Bytes) (d : Disk)
    → d.unreadable (pinned_path out_dir) ≡ false
    → (save_pinned_key out_dir key d).1 ≡ ok tt
    → IsPinnedKey (save_pinned_key out_dir key d).0 out_dir key
unfolding save_pinned_key IsPinnedKey
save_pinned_key-IsPinnedKey out_dir key d readable h =
    elim (Bool-cases (d.unwritable (pinned_path out_dir))) [
      | inl bad ↦
          (let failed : (tool_public_ubo.System.Disk.write_file d (pinned_path out_dir)
                  (key ++ codes "\n") 0o644).1
                ≡ false =
              unfold tool_public_ubo.System.Disk.write_file in rw bad refl in
            err-ne-ok (rw failed at h))
      | inr good ↦
          read_file-write_file d (pinned_path out_dir) (key ++ codes "\n") 0o644 good readable
    ]

module _ (unmarshal : Bytes → Option Bytes) (ssh : Ssh) (client : Client) (c : Config) (keys : Keys)
    (out_dir : Bytes) where
  saved-IsConfigured :
      (d : Disk) (r : Result ConfigureError Bytes)
      → d.unreadable (pinned_path out_dir) ≡ false
      → remote_steps unmarshal ssh client c keys ≡ r
      → (saved out_dir r d).1 ≡ ok tt
      → (done : IsConfigured unmarshal ssh client c keys) × IsPinnedKey
          (saved out_dir r d).0
          out_dir
          done.key
  unfolding saved
  saved-IsConfigured d (err e) readable is h = err-ne-ok h
  saved-IsConfigured d (ok key) readable is h =
      let (done, same) = remote_steps-IsConfigured unmarshal ssh client c keys is in
      (
        done,
        subst (IsPinnedKey (save_pinned_key out_dir key d).0 out_dir) (sym same)
            (save_pinned_key-IsPinnedKey out_dir key d readable h),
      )

  -- `Configure` succeeds only when the network was detected from the answers of that host over ssh, its
  -- data passed the checks for GRUB, and the script rendered from that data was uploaded and ran without
  -- an error. The script's WireGuard file holds the server's private and the client's public key, and
  -- its authorized_keys the client's ssh key. The file dropbear_host_key.pub then holds the key that is
  -- read from the script's output, which is not empty, if that file can be read.
  pub configure-IsConfigured :
      (d : Disk)
      → d.unreadable (pinned_path out_dir) ≡ false
      → (configure unmarshal ssh client c keys out_dir d).1 ≡ ok tt
      → (done : IsConfigured unmarshal ssh client c keys) × IsPinnedKey
          (configure unmarshal ssh client c keys out_dir d).0
          out_dir
          done.key
  unfolding configure keep_host_key
  configure-IsConfigured d readable h =
      saved-IsConfigured (keep_host_key ssh client d) _ readable refl h

  saved-steps :
      (d : Disk) (r : Result ConfigureError Bytes)
      → remote_steps unmarshal ssh client c keys ≡ r
      → (saved out_dir r d).1 ≡ ok tt
      → IsConfigured unmarshal ssh client c keys
  unfolding saved
  saved-steps d (err e) is h = err-ne-ok h
  saved-steps d (ok key) is h = (remote_steps-IsConfigured unmarshal ssh client c keys is).0

  -- The remote side alone, whatever the disk is like.
  pub configure-steps :
      (d : Disk)
      → (configure unmarshal ssh client c keys out_dir d).1 ≡ ok tt
      → IsConfigured unmarshal ssh client c keys
  unfolding configure
  configure-steps d h = saved-steps (keep_host_key ssh client d) _ refl h

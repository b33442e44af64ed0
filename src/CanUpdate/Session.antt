-- ===== src/CanUpdate/Session.antt =====
-- The whole of `can_send_file`: what a successful update has sent.
use miri_tool_v.Base.{ℕ, ◌≤◌, ◌≡◌, refl, subst, Bytes, [], ◌∷◌, ◌++◌, length, arith}
use miri_tool_v.CanUpdate.Sid
use miri_tool_v.CanUpdate.Bus.{Driver, Bus, ok}
use miri_tool_v.CanUpdate.Sent.{Sent, Sent-bind, Sent-ok, incan_tx-Sent}
use miri_tool_v.CanUpdate.Transfer.{tms_send_cmd, can_send_file, max_index_flash}
use miri_tool_v.CanUpdate.Pages.{
  command, erase_messages, flash_messages, Sent-then, exchange-Sent, incan_open-Sent, erase-Sent,
  write_pages-Sent,
}

module _ (driver : Driver) where
  update_Sent :
      (target_id bitrate_fast : ℕ) (content : Bytes) (behind : ℕ → Bytes) (s : Bus)
      → ((o : ℕ) → 5 ≤ length (behind o))
      → Sent
          (command Sid.download_start 0
            ∷ command Sid.boot_run_check 0
            ∷ (erase_messages max_index_flash 0
                ++ (flash_messages (length content) content behind 0
                    ++ command Sid.download_finish 0x01 ∷ [])))
          s
          (can_send_file driver target_id bitrate_fast content (length content) behind s)
  unfolding can_send_file tms_send_cmd
  update_Sent target_id bitrate_fast content behind s room =
      let start = command Sid.download_start 0 ∷ [] in
      let checked = command Sid.download_start 0 ∷ command Sid.boot_run_check 0 ∷ [] in
      let erased = checked ++ erase_messages max_index_flash 0 in
      let pages = flash_messages (length content) content behind 0 in
      Sent-bind (erased ++ pages) (command Sid.download_finish 0x01 ∷ []) s _ _
        (Sent-then (erased ++ pages) s _ _
          (Sent-bind erased pages s _ _
            (Sent-then erased s _ _
              (Sent-bind checked (erase_messages max_index_flash 0) s _ _
                (Sent-then checked s _ _
                  (Sent-bind start (command Sid.boot_run_check 0 ∷ []) s _ _
                    (Sent-then start s _ _
                      (Sent-then start s _ _
                        (Sent-bind [] start s _ _ (incan_open-Sent driver 125000 _)
                          (λ t. exchange-Sent driver target_id Sid.download_start 0 t))
                        (λ t. Sent-ok t))
                      (λ t. incan_open-Sent driver bitrate_fast t))
                    (λ t. exchange-Sent driver target_id Sid.boot_run_check 0 t))
                  (λ t. Sent-ok t))
                (λ t. erase-Sent driver target_id max_index_flash 0 t))
              (λ t. Sent-ok t))
            (λ t.
              write_pages-Sent driver target_id (length content) [] content (length content) 0
                behind t refl (omega arith) (omega arith) room))
          (λ t. Sent-ok t))
        (λ t. incan_tx-Sent driver _ _ t)

  -- What a successful update sends, for a file of `size` bytes: the start and the boot check, the
  -- 16 erase commands, every page of the file in order (its frames, then the command that writes
  -- it at its offset), and the end.
  pub can_send_file-Sent :
      (target_id bitrate_fast : ℕ) (content : Bytes) (behind : ℕ → Bytes) (s t : Bus)
      → ((o : ℕ) → 5 ≤ length (behind o))
      → can_send_file driver target_id bitrate_fast content (length content) behind s ≡ ok t
      → t.sent
        ≡ s.sent
          ++ (command Sid.download_start 0
              ∷ command Sid.boot_run_check 0
              ∷ (erase_messages max_index_flash 0
                  ++ (flash_messages (length content) content behind 0
                      ++ command Sid.download_finish 0x01 ∷ [])))
  can_send_file-Sent target_id bitrate_fast content behind s t room e =
      subst
        (Sent
          (command Sid.download_start 0
            ∷ command Sid.boot_run_check 0
            ∷ (erase_messages max_index_flash 0
                ++ (flash_messages (length content) content behind 0
                    ++ command Sid.download_finish 0x01 ∷ [])))
          s)
        e (update_Sent target_id bitrate_fast content behind s room)

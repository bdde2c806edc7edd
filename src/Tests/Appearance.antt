-- ===== src/Tests/Appearance.antt =====
-- The theorems of the appearance update.
use slavetat_ui.Base.{
  ℕ, ◌+◌, ◌≡◌, refl, arith, Bool, true, false, pos, zero_f, one_f, [], ◌∷◌, some,
}
use slavetat_ui.Core.Models.{
  UpdateTattooAppearanceMode, UpdateTattooAppearanceRequest, UpdateTattooAppearanceSuccess,
  synchronize_failed, ok,
}
use slavetat_ui.Appearance.{IUpdateTattooAppearanceBackend, update_tattoo_appearance}
use slavetat_ui.Appearance.Outcomes.{
  Ran, success_did_all, synchronize_failed_wrote, synchronize_only_never_writes,
}

-- The world counts the calls; the actor wears tattoo 73, and synchronizing succeeds as given.
abbrev game : Bool → IUpdateTattooAppearanceBackend ℕ ℕ
game synchronizes = record {
  resolve_actor = λ form w. (some form, w + 1);
  query_applied_tattoo_handles = λ actor w. (ok (pos 73 ∷ []), w + 1);
  write_appearance = λ handle request w. (true, w + 1);
  mark_actor_updated = λ actor w. (true, w + 1);
  synchronize = λ actor w. (synchronizes, w + 1);
}

abbrev recolouring : UpdateTattooAppearanceRequest
recolouring = record {
  actor_form_id = 0x14;
  runtime_handle = pos 73;
  color = pos 0xFF;
  alpha = one_f;
  glow = pos 0;
  glossiness = zero_f;
  specular_strength = zero_f;
  emissive_mult = one_f;
  mode = UpdateTattooAppearanceMode.update_and_synchronize;
}

abbrev changed : UpdateTattooAppearanceSuccess
changed = record { actor_form_id = 0x14; runtime_handle = pos 73 }

success_did_all_example : Ran (game true) recolouring 0 true 5 × (changed ≡ changed)
unfolding update_tattoo_appearance
success_did_all_example = success_did_all (game true) recolouring 0 5 changed refl

synchronize_failed_wrote_example : Ran (game false) recolouring 0 false 5
unfolding update_tattoo_appearance
synchronize_failed_wrote_example =
    synchronize_failed_wrote (game false) recolouring 0 5
      (record {
        code = synchronize_failed;
        message = "Tattoo appearance changed but synchronization failed";
      })
      refl refl (λ actor v f e. ground arith)

synchronize_only_never_writes_example :
    update_tattoo_appearance
      (record (game true) {
        query_applied_tattoo_handles = λ actor w. (ok [], w + 9);
        write_appearance = λ handle request w. (false, w + 9);
      })
      (record recolouring { mode = UpdateTattooAppearanceMode.synchronize_only })
      0
    ≡ update_tattoo_appearance
        (game true)
        (record recolouring { mode = UpdateTattooAppearanceMode.synchronize_only })
        0
synchronize_only_never_writes_example =
    synchronize_only_never_writes (game true)
      (record recolouring { mode = UpdateTattooAppearanceMode.synchronize_only })
      (λ actor w. (ok [], w + 9)) (λ handle request w. (false, w + 9)) 0 refl

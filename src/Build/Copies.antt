-- ===== src/Build/Copies.antt =====
-- What a build that succeeds has written, and which sources it finds.
use scweb_vpn.Common.{
  ◌≡◌, refl, sym, ap, ◌∙◌, inl, inr, Bool, true, not, List, [], ◌∷◌, ◌++◌, map, All, Bool-cases, ok,
  ok-eq, >>=-eq-ok,
}
use scweb_vpn.Common.Texts.{Text, lit}
use scweb_vpn.Build.{
  Bundle, FileAct, make_directory, output, absolute, bundle, directories, copies, copy_files,
  written_act, has_epoxy, build, epoxy_wasm,
}

module _ (join : List Text → Text) (root : Text) (exists : Text → Bool) where
  abbrev target : Text × Text → Text × Text
  target c = (absolute join root c.0, join (output join root ∷ c.1 ∷ []))

  -- A run of the loop that ends has written each file, in the order of the list, from a source that is there.
  copy_files_complete :
      (cs written : List (Text × Text))
      → copy_files join root exists cs ≡ ok written
      → (written ≡ map target cs) × All (λ c. exists (absolute join root c.0) ≡ true) cs
  unfolding copy_files
  copy_files_complete [] written h = (sym (ok-eq h), tt)
  copy_files_complete (c ∷ cs) written h = elim (Bool-cases (exists (absolute join root c.0))) [
    | inl is ↦
        let (later, e, last) = >>=-eq-ok (copy_files join root exists cs) _ (rw is at h) in
        let (all_written, all_there) = copy_files_complete cs later e in
        (sym (ok-eq last) ∙ ap (λ l. target c ∷ l) all_written, (is, all_there))
    | inr missing ↦ absurd (cc (rw missing at h))
  ]

  -- A build that ends has made the directories and then written every file of the list, in its order, each
  -- from a source that is there.
  pub build_complete :
      (bundler : Bundle → Bool) (acts : List FileAct)
      → build join root exists bundler ≡ ok acts
      → (bundler (bundle join root) ≡ true)
        × (acts
            ≡ map make_directory (directories join root)
              ++ map (written_act join root exists) (map target (copies join root)))
        × All (λ c. exists (absolute join root c.0) ≡ true) (copies join root)
  unfolding build
  build_complete bundler acts h = elim (Bool-cases (not (has_epoxy join root exists))) [
    | inl missing ↦ absurd (cc (rw missing at h))
    | inr there ↦ elim (Bool-cases (bundler (bundle join root))) [
      | inr fails ↦ absurd (cc (rw (there, fails) at h))
      | inl built ↦
          let (written, e, last) =
            >>=-eq-ok (copy_files join root exists (copies join root)) _ (rw (there, built) at h) in
          let (all_written, all_there) = copy_files_complete (copies join root) written e in
          (
            built,
            sym (ok-eq last)
                ∙ ap
                    (λ l.
                      map make_directory (directories join root)
                      ++ map (written_act join root exists) l)
                    all_written,
            all_there,
          )
    ]
  ]

-- `join` of parts without `.` and `..`.
abbrev join_parts : List Text → Text
join_parts [] = []
join_parts (p ∷ []) = p
join_parts (p ∷ q ∷ ps) = p ++ lit "/" ++ join_parts (q ∷ ps)

-- Where paths have no colon, a source in `node_modules` or `vendor` is looked for below the root twice.
doubled_root :
    absolute join_parts (lit "/w") (epoxy_wasm join_parts (lit "/w"))
    ≡ lit "/w//w/vendor/epoxy/epoxy_client_bg.wasm"
unfolding absolute
doubled_root = refl

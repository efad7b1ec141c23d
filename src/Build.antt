-- ===== src/Build.antt =====
-- web/scripts/build.ts: the files that the build writes. `join` of node:path, the file system and the bundler are
-- parameters.
mod Copies
use scweb_vpn.Common.{
  ℕ, Bool, true, false, not, ◌&&◌, ◌||◌, List, [], ◌∷◌, ◌++◌, map, any, ◌==◌, if◌then◌else◌, Result,
  ok, err, Failure, message, given, ◌>>=◌, String, ◌-◌, length, take,
}
use scweb_vpn.Common.Texts.{Text, lit, text_eq}
use scweb_vpn.App.Address.{ends_with}

-- `import.meta.dir.replace(/[\\/]scripts$/, '')`.
unfoldable pub root_of : Text → Text
unfolding ends_with
root_of dir =
    if ends_with (lit "/scripts") dir || ends_with (b'\\' ∷ lit "scripts") dir
    then take (length dir - 8) dir
    else dir

-- The options of the bundler; `pinned` is what its plugin makes of an import.
pub record Bundle : Type 0 where
  pub entrypoints : List Text
  pub minify : Bool
  pub outdir : Text
  pub target : String
  pub format : String
  pub sourcemap : String
  pub pinned_imports : Text → Text → Text

-- What the script does to the file system.
pub data FileAct : Type 0 where
  make_directory : Text → FileAct
  write_file : (destination source : Text) → FileAct

abbrev pub is_colon : ℕ → Bool
is_colon c = c == b':'

module _ (join : List Text → Text) (root : Text) where
  -- The directories and the modules of the script.
  abbrev pub output : Text
  output = join (root ∷ lit "dist" ∷ [])

  abbrev modules : Text
  modules = join (root ∷ lit "node_modules" ∷ [])

  abbrev epoxy_vendor : Text
  epoxy_vendor = join (root ∷ lit "vendor" ∷ lit "epoxy" ∷ [])

  abbrev epoxy_module : Text
  epoxy_module = join (epoxy_vendor ∷ lit "epoxy_client.js" ∷ [])

  abbrev pub epoxy_wasm : Text
  epoxy_wasm = join (epoxy_vendor ∷ lit "epoxy_client_bg.wasm" ∷ [])

  abbrev controller_module : Text
  controller_module = join (
      modules
      ∷ lit "@mercuryworkshop"
      ∷ lit "scramjet-controller"
      ∷ lit "dist"
      ∷ lit "controller-external.mjs"
      ∷ [])

  -- The plugin `pinned-epoxy`: where an import of the bundle is read from.
  unfoldable pub pinned : (name other : Text) → Text
  pinned name other =
      if text_eq name (lit "@mercuryworkshop/epoxy-tls")
      then epoxy_module
      else if text_eq name (lit "@mercuryworkshop/scramjet-controller")
      then controller_module
      else other

  abbrev pub bundle : Bundle
  bundle = record {
    entrypoints = join (root ∷ lit "src" ∷ lit "app.ts" ∷ []) ∷ [];
    minify = true;
    outdir = output;
    target = "browser";
    format = "esm";
    sourcemap = "none";
    pinned_imports = pinned;
  }

  abbrev pub directories : List Text
  directories =
      join (output ∷ lit "compat" ∷ lit "controller" ∷ [])
      ∷ join (output ∷ lit "compat" ∷ lit "scramjet" ∷ [])
      ∷ []

  -- `copies`.
  abbrev pub copies : List (Text × Text)
  copies =
      (lit "public/index.html", lit "index.html")
      ∷ (lit "public/style.css", lit "style.css")
      ∷ (epoxy_wasm, lit "epoxy_client_bg.wasm")
      ∷ (
        join (modules ∷ lit "@mercuryworkshop/scramjet/dist/scramjet.js" ∷ []),
        lit "compat/scramjet/scramjet.js",
      )
      ∷ (
        join (modules ∷ lit "@mercuryworkshop/scramjet/dist/scramjet.wasm" ∷ []),
        lit "compat/scramjet/scramjet.wasm",
      )
      ∷ (
        join (modules ∷ lit "@mercuryworkshop/scramjet-controller/dist/controller.inject.js" ∷ []),
        lit "compat/controller/controller.inject.js",
      )
      ∷ (
        join (modules ∷ lit "@mercuryworkshop/scramjet-controller/dist/controller.api.js" ∷ []),
        lit "compat/controller/controller.api.js",
      )
      ∷ (
        join (modules ∷ lit "@mercuryworkshop/scramjet-controller/dist/controller.sw.js" ∷ []),
        lit "compat/controller/controller.lib.js",
      )
      ∷ (lit "src/controller-sw.js", lit "controller.sw.js")
      ∷ []

  -- The file that a source names: with a colon it is taken as it is.
  unfoldable pub absolute : Text → Text
  absolute source = if any is_colon source then source else join (root ∷ source ∷ [])

  module _ (exists : Text → Bool) where
    -- The loop: each file that is written, with its source; it stops at a source that is missing.
    unfoldable pub copy_files : List (Text × Text) → Result (List (Text × Text))
    unfolding absolute
    copy_files [] = ok []
    copy_files ((source, destination) ∷ cs) =
        if exists (absolute source)
        then (do
          written ← copy_files cs
          ok ((absolute source, join (output ∷ destination ∷ [])) ∷ written))
        else err (given (lit "Required build input is missing: " ++ source))

    -- The pinned module and its WebAssembly are there.
    abbrev pub has_epoxy : Bool
    has_epoxy = exists epoxy_module && exists epoxy_wasm

    abbrev pub written_act : Text × Text → FileAct
    written_act (source, destination) = write_file destination source

    -- The script, with what it has done when it ends: `bundler` tells whether the bundler succeeds.
    abbrev after_bundle : Bool → List FileAct → Result (List FileAct)
    after_bundle false acts = err (message "exit 1")
    after_bundle true acts = do written ← copy_files copies; ok (acts ++ map written_act written)

    unfoldable pub build : (bundler : Bundle → Bool) → Result (List FileAct)
    unfolding copy_files pinned
    build bundler =
        if not has_epoxy
        then err (message "Pinned Epoxy source artifact is missing from web/vendor/epoxy.")
        else after_bundle (bundler bundle) (map make_directory directories)

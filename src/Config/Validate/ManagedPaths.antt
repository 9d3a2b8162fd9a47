-- ===== src/Config/Validate/ManagedPaths.antt =====
-- What `validateManagedPath` accepts: a directory of its own that lies inside the project, or an
-- absolute one that is not the root.
use sdbx.Base.{
  String, ◌≡◌, refl, ◌≢◌, ◌↔◌, ◌∙◌, inl, inr, List, [], ◌∷◌, ok, arith, All, Bool-cases,
}
use sdbx.Base.Paths.{CleanPath, Element, is_abs, clean}
use sdbx.Base.Paths.Laws.{IsPlain, clean-IsPlain}
use sdbx.Base.Paths.Relative.{first, NotUp, clean-IsPlain_of_first}
use sdbx.Config.{Config}
use sdbx.Config.Checks.{Host, managed_absolute, managed_relative, validate_managed_path}
use sdbx.Config.Validate.{validate, validate_paths}
use sdbx.Config.Validate.Sound.{validate-Passed}

-- A path of at least one element, each of which is a name.
pub record IsDedicated (p : CleanPath) : Type 0 where
  pub some_part : p.parts ≢ []
  pub plain : All IsPlain p.parts

clean-rooted : (s : String) → (clean s).rooted ≡ is_abs s
unfolding clean
clean-rooted s = refl

absolute-ok : (field : String) (ps : List Element) → managed_absolute field ps ≡ ok tt → ps ≢ []
unfolding managed_absolute
absolute-ok field [] h e = cc
absolute-ok field (p ∷ ps) h e = cc

relative-ok :
    (field : String) (ps : List Element)
    → managed_relative field ps ≡ ok tt
    → (ps ≢ []) × NotUp (first ps)
unfolding managed_relative
relative-ok field [] h = cc
relative-ok field (p ∷ ps) h = ((λ e. cc), ground arith)

absolute_of : (field : String) (ps : List Element) → ps ≢ [] → managed_absolute field ps ≡ ok tt
unfolding managed_absolute
absolute_of field [] h = absurd (h refl)
absolute_of field (p ∷ ps) h = refl

relative_of :
    (field : String) (ps : List Element)
    → ps ≢ []
    → All IsPlain ps
    → managed_relative field ps ≡ ok tt
unfolding managed_relative
relative_of field [] h a = absurd (h refl)
relative_of field (p ∷ ps) h (a, _) = rw (a.not_dotdot) refl

-- `validateManagedPath` accepts a text exactly when the cleaned path has an element and none of its
-- elements is "..": an accepted path, relative or absolute, never leaves the directory it starts in.
pub validate_managed_path_iff :
    (field value : String) → (validate_managed_path field value ≡ ok tt) ↔ IsDedicated (clean value)
unfolding validate_managed_path
validate_managed_path_iff field value = elim (Bool-cases (is_abs value)) [
  | inl abs ↦
      let root = clean-rooted value ∙ abs in
      (
        (λ h. record {
          some_part = absolute-ok field (clean value).parts (rw root at h);
          plain = clean-IsPlain value abs;
        }),
        (λ d. rw root (absolute_of field (clean value).parts d.some_part)),
      )
  | inr rel ↦
      let root = clean-rooted value ∙ rel in
      (
        (λ h.
            let (part, first_ok) = relative-ok field (clean value).parts (rw root at h) in
            record { some_part = part; plain = clean-IsPlain_of_first value rel first_ok }),
        (λ d. rw root (relative_of field (clean value).parts d.some_part d.plain)),
      )
]

-- All five managed directories of a configuration are dedicated.
pub record HasDedicatedPaths (c : Config) : Type 0 where
  pub config : IsDedicated (clean c.config_path)
  pub data_dir : IsDedicated (clean c.data_path)
  pub downloads : IsDedicated (clean c.downloads_path)
  pub media : IsDedicated (clean c.media_path)
  pub secrets : IsDedicated (clean c.secrets_path)

-- In an accepted configuration each of the five managed directories, once cleaned, has an element,
-- and none of its elements is "..": it is no root, not "." and no path that leaves its start by "..".
-- An absolute path that equals the project directory is not excluded.
pub validate-HasDedicatedPaths :
    (host : Host) (c : Config) → validate host c ≡ ok tt → HasDedicatedPaths c
unfolding validate_paths
validate-HasDedicatedPaths host c h =
    let p = (validate-Passed host c h).paths in
    record {
      config = (validate_managed_path_iff "config_path" c.config_path).0 (ground (arith, p));
      data_dir = (validate_managed_path_iff "data_path" c.data_path).0 (ground (arith, p));
      downloads =
          (validate_managed_path_iff "downloads_path" c.downloads_path).0 (ground (arith, p));
      media = (validate_managed_path_iff "media_path" c.media_path).0 (ground (arith, p));
      secrets = (validate_managed_path_iff "secrets_path" c.secrets_path).0 (ground (arith, p));
    }

-- ===== src/Manifest/Platforms.antt =====
-- The platforms of a manifest against the texts of the spec: strings.Cut loses nothing.
use Prim.Native.Char.{Char, code}
use Prim.Native.String.append
use text.Mathlib.TextEquality.{Char-path}
use criteria_go_adapter_sdk.Base.{
  String, ◌<>◌, ◌≡◌, ◌≢◌, refl, sym, ap, ◌∙◌, ◌⊎◌, inl, inr, List, [], ◌∷◌, Option, none, some, All,
  num_eq, Bool-cases, arith,
}
use criteria_go_adapter_sdk.Base.Sort.{codes}
use criteria_go_adapter_sdk.Manifest.{
  PlatformDoc, in_front, cut, platform_doc, platforms_from_strings,
}

abbrev pub NoSlash : String → Type 0
NoSlash s = All (λ c. c ≢ 47) (codes s)

-- The document of a platform's text: the parts before and behind its first slash, or all of it as the os.
abbrev pub Reads : String → PlatformDoc → Type 0
Reads p d =
    ((p ≡ d.os <> ("/" <> d.arch)) × NoSlash d.os)
    ⊎ ((d ≡ record { os = p; arch = "" }) × NoSlash p)

abbrev pub ReadsAll : List String → List PlatformDoc → Type 0
ReadsAll [] ds = ds ≡ []
ReadsAll (p ∷ ps) ds =
    (d : PlatformDoc) × (rest : List PlatformDoc) × (ds ≡ d ∷ rest) × Reads p d × ReadsAll ps rest

abbrev Cuts : String → Option (String × String) → Type 0
Cuts s none = NoSlash s
Cuts s (some (os, arch)) = (s ≡ os <> ("/" <> arch)) × NoSlash os

slash : (c : Char) (s : String) → code c ≡ 47 → String.◌∷◌ c s ≡ "" <> ("/" <> s)
slash c s e =
    ap (λ d. String.◌∷◌ d s) (Char-path c "/" e)
    ∙ (sym (ap (λ t. String.◌∷◌ "/" t) (append.nil s))
        ∙ (sym (append.cons "/" "" s) ∙ sym (append.nil ("/" <> s))))

in_front-Cuts :
    (c : Char) (s : String) (r : Option (String × String))
    → code c ≢ 47
    → Cuts s r
    → Cuts (String.◌∷◌ c s) (in_front c r)
in_front-Cuts c s none n h = (n, h)
in_front-Cuts c s (some (os, arch)) n h =
    (ap (λ t. String.◌∷◌ c t) h.0 ∙ sym (append.cons c os ("/" <> arch)), (n, h.1))

cut-Cuts : (s : String) → Cuts s (cut s)
cut-Cuts String.[] = tt
cut-Cuts (String.◌∷◌ c s) = elim (Bool-cases (num_eq (code c) 47)) [
  | inl e ↦ rw e (slash c s (ground arith), tt)
  | inr e ↦ rw e (in_front-Cuts c s (cut s) (λ q. ground arith) (cut-Cuts s))
]

platform_doc-Reads :
    (p : String) (r : Option (String × String)) → Cuts p r → Reads p (platform_doc p r)
platform_doc-Reads p none h = inr (refl, h)
platform_doc-Reads p (some (os, arch)) h = inl h

-- Each platform's text, in order, is read back from its document: it is the os, a slash and the architecture,
-- with no slash in the os, or it has no slash and is the os alone.
pub platforms_from_strings-ReadsAll : (ps : List String) → ReadsAll ps (platforms_from_strings ps)
unfolding platforms_from_strings
platforms_from_strings-ReadsAll [] = refl
platforms_from_strings-ReadsAll (p ∷ ps) = (
  platform_doc p (cut p),
  platforms_from_strings ps,
  refl,
  platform_doc-Reads p (cut p) (cut-Cuts p),
  platforms_from_strings-ReadsAll ps,
)

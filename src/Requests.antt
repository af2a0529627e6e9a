-- ===== src/Requests.antt =====
-- internal/app/app.go, lines 368-380, 410-432, 868-882, 906-916 and 1117-1302: to which handler a
-- request goes. A request is what the decision reads of it; texts are byte texts.
pub mod SuffixLaws
pub mod SegmentLaws
pub mod Route
pub mod MirrorLaws
pub mod RouteLaws
mod Runs
use apk_cache.Prelude.{
  ℕ, zero, suc, ◌-◌, Bool, true, false, not, ◌&&◌, ◌||◌, Option, none, some, List, [], ◌∷◌, ◌++◌,
  Bytes, codes, bytes_eq, length, drop, leb, ltb, ◌==◌, if◌then◌else◌,
}

pub data PackageType : Type 0 where
  unknown apk apt : PackageType

-- n >= k && path[n-k:] == suffix, for a suffix of k bytes
unfoldable pub ends_with : Bytes → Bytes → Bool
ends_with path suffix =
    leb (length suffix) (length path) && bytes_eq (drop (length path - length suffix) path) suffix

-- path[n-1], of a path that is not empty
unfoldable pub last_byte : Bytes → ℕ
last_byte [] = 0
last_byte (c ∷ []) = c
last_byte (c ∷ d ∷ rest) = last_byte (d ∷ rest)

unfoldable pub detect_package_suffix : Bytes → PackageType
detect_package_suffix path =
    let last = last_byte path in
    if ltb (length path) 4
    then unknown
    else if last == b'k'
    then (if ends_with path (codes ".apk") then apk else unknown)
    else if last == b'z'
    then (if ends_with path (codes "/APKINDEX.tar.gz")
        then apk
        else if (ends_with path (codes "/Packages.gz") || ends_with path (codes "/Packages.xz"))
            || (ends_with path (codes "/Sources.gz") || ends_with path (codes "/Sources.xz"))
        then apt
        else unknown)
    else if last == b'b'
    then (if ends_with path (codes ".deb") then apt else unknown)
    else if last == b'e'
    then (if ends_with path (codes "/InRelease") || ends_with path (codes "/Release")
        then apt
        else unknown)
    else if last == b's'
    then (if ends_with path (codes "/Packages") || ends_with path (codes "/Sources")
        then apt
        else unknown)
    else if last == b'2'
    then (if ends_with path (codes "/Packages.bz2") || ends_with path (codes "/Sources.bz2")
        then apt
        else unknown)
    else if last == b'a'
    then (if ends_with path (codes "/Packages.lzma") || ends_with path (codes "/Sources.lzma")
        then apt
        else unknown)
    else unknown

-- path[start:end], and path[end+1:], of the text from `start` on
unfoldable pub segment : Bytes → Bytes
segment [] = []
segment (c ∷ rest) = let more = segment rest in if c == b'/' then [] else c ∷ more

unfoldable pub after_segment : Bytes → Bytes
after_segment [] = []
after_segment (c ∷ rest) = let more = after_segment rest in if c == b'/' then rest else more

unfoldable pub is_root : Bytes → Bool
is_root s =
    bytes_eq s (codes "debian")
    || bytes_eq s (codes "ubuntu")
    || bytes_eq s (codes "debian-security")

unfoldable pub is_tree : Bytes → Bool
is_tree s = bytes_eq s (codes "dists") || bytes_eq s (codes "pool")

-- The loop over the segments; `first` is start == 1. `none` means that the fuel ran out.
unfoldable pub scan : ℕ → Bool → Bool → Bytes → Option PackageType
scan zero first seen rest = none
scan (suc fuel) first seen [] = some unknown
scan (suc fuel) first seen (c ∷ rest) =
    let s = segment (c ∷ rest) in
    let seen_root = seen || is_root s in
    let next = scan fuel false seen_root (after_segment (c ∷ rest)) in
    if first && bytes_eq s (codes "alpine")
    then some apk
    else if bytes_eq s (codes "by-hash")
    then some apt
    else if is_tree s && (first || seen_root)
    then some apt
    else next

unfoldable pub or_scan : PackageType → Bytes → Option PackageType
or_scan apk rest = some apk
or_scan apt rest = some apt
or_scan unknown rest = scan (suc (length rest)) true false rest

unfoldable pub detect_package_request_type : Bytes → Option PackageType
detect_package_request_type [] = some unknown
detect_package_request_type (c ∷ []) = some unknown
detect_package_request_type (c ∷ d ∷ rest) =
    if not (c == b'/')
    then some unknown
    else or_scan (detect_package_suffix (c ∷ d ∷ rest)) (d ∷ rest)

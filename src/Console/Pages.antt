-- ===== src/Console/Pages.antt =====
-- internal/admin/web/src/pages: the pages of the console.
pub mod Cache
pub mod CacheLaws
pub mod Config
pub mod ConfigView
pub mod ConfigViewLaws
pub mod EditorLaws
pub mod ConfigLaws
pub mod Lists
pub mod ListsView
pub mod ListsLaws
pub mod Mirrors
pub mod MirrorsLaws
pub mod Packages
pub mod PackagesLaws
pub mod Proxy
pub mod ProxyLaws
pub mod Upstreams
pub mod UpstreamsLaws
pub mod Views
pub mod ViewsLaws
mod Runs

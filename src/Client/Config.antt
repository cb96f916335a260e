-- ===== src/Client/Config.antt =====
-- client/outwarp/config.py: the profile, parsed from the JSON value of an .owcfg. Json holds the
-- values and what Python's conversions make of them, Checks the checks on texts, Sections the parts
-- that every profile has, Optional those it may lack, Strategies the fallback ladder, Parse the whole,
-- Valid what a parsed profile satisfies, Patch the changes that a user may make, and Dict the profile
-- as a JSON value.
pub mod Json
pub mod Checks
pub mod Sections
pub mod Optional
pub mod Strategies
pub mod Parse
pub mod Valid
pub mod Patch
pub mod Dict
pub mod Examples

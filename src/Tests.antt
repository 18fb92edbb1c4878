-- ===== src/Tests.antt =====
-- Runs of the model on small inputs.
mod Codec
mod Archives
mod Secrets
mod Links
mod Names
mod Handlers
mod Backups
mod Listings
mod Trees

-- ===== src/Complexity/Tables.antt =====
-- The tables of pkg/estimations/complexity/complexity.go.
use migration_planner.Prelude.{ℕ, String, List, [], ◌∷◌}

-- Score: `int`; the tables hold no negative one.
abbrev pub Score : Type 0
Score = ℕ

abbrev pub os_scores : List Score
os_scores = 0 ∷ 1 ∷ 2 ∷ 3 ∷ 4 ∷ []

abbrev pub disk_scores : List Score
disk_scores = 1 ∷ 2 ∷ 3 ∷ 4 ∷ []

-- OSDifficultyScores, in the order of the source.
abbrev pub os_difficulty_scores : List (String × Score)
os_difficulty_scores =
    ("Red Hat Enterprise Linux 4", 2)
    ∷ ("Red Hat Enterprise Linux 5", 2)
    ∷ ("Red Hat Enterprise Linux 6", 1)
    ∷ ("Red Hat Enterprise Linux 7", 1)
    ∷ ("Red Hat Enterprise Linux 8", 1)
    ∷ ("Red Hat Enterprise Linux 9", 1)
    ∷ ("Red Hat Enterprise Linux 10", 1)
    ∷ ("Red Hat Fedora", 1)
    ∷ ("CentOS 4", 2)
    ∷ ("CentOS 5", 2)
    ∷ ("CentOS 6", 1)
    ∷ ("CentOS 7", 1)
    ∷ ("CentOS 8", 1)
    ∷ ("CentOS 9", 1)
    ∷ ("Oracle Linux 4", 2)
    ∷ ("Oracle Linux 5", 2)
    ∷ ("Oracle Linux 6", 1)
    ∷ ("Oracle Linux 7", 1)
    ∷ ("Oracle Linux 8", 1)
    ∷ ("Oracle Linux 9", 1)
    ∷ ("Rocky Linux 8", 1)
    ∷ ("Rocky Linux 9", 1)
    ∷ ("AlmaLinux 8", 3)
    ∷ ("AlmaLinux 9", 3)
    ∷ ("SUSE Linux Enterprise 8", 3)
    ∷ ("SUSE Linux Enterprise 9", 3)
    ∷ ("SUSE Linux Enterprise 10", 3)
    ∷ ("SUSE Linux Enterprise 11", 3)
    ∷ ("SUSE Linux Enterprise 12", 2)
    ∷ ("SUSE Linux Enterprise 15", 2)
    ∷ ("SUSE openSUSE", 3)
    ∷ ("Ubuntu Linux 18.04", 3)
    ∷ ("Ubuntu Linux 20.04", 3)
    ∷ ("Ubuntu Linux 22.04", 3)
    ∷ ("Ubuntu Linux 24.04", 3)
    ∷ ("Ubuntu Linux", 3)
    ∷ ("Debian GNU/Linux 5", 3)
    ∷ ("Debian GNU/Linux 6", 3)
    ∷ ("Debian GNU/Linux 7", 3)
    ∷ ("Debian GNU/Linux 8", 3)
    ∷ ("Debian GNU/Linux 9", 3)
    ∷ ("Debian GNU/Linux 10", 3)
    ∷ ("Debian GNU/Linux 11", 3)
    ∷ ("Debian GNU/Linux 12", 3)
    ∷ ("Windows Server 2000", 3)
    ∷ ("Windows Server 2003", 3)
    ∷ ("Windows Server 2008 R2", 3)
    ∷ ("Windows Server 2008", 3)
    ∷ ("Windows Server 2012 R2", 3)
    ∷ ("Windows Server 2012", 3)
    ∷ ("Windows Server 2016", 2)
    ∷ ("Windows Server 2019", 2)
    ∷ ("Windows Server 2022", 2)
    ∷ ("Windows Server 2025", 2)
    ∷ ("Windows XP", 3)
    ∷ ("Windows Vista", 3)
    ∷ ("Windows 7", 3)
    ∷ ("Windows 8", 3)
    ∷ ("Windows 10", 2)
    ∷ ("Windows 11", 2)
    ∷ ("Oracle Solaris 10", 3)
    ∷ ("Oracle Solaris 11", 3)
    ∷ ("FreeBSD", 3)
    ∷ ("VMware Photon OS", 3)
    ∷ ("Amazon Linux 2", 3)
    ∷ ("CoreOS Linux", 3)
    ∷ ("Apple macOS", 3)
    ∷ ("Microsoft SQL", 4)
    ∷ []

-- DiskSizeScores: the labels of new snapshots, then those of old ones.
abbrev pub disk_size_scores : List (String × Score)
disk_size_scores =
    ("0-10TiB", 1)
    ∷ ("10-20TiB", 2)
    ∷ ("20-50TiB", 3)
    ∷ ("50+TiB", 4)
    ∷ ("Easy (0-10TB)", 1)
    ∷ ("Medium (10-20TB)", 2)
    ∷ ("Hard (20-50TB)", 3)
    ∷ ("White Glove (>50TB)", 4)
    ∷ []

-- DiskSizeRangeRatings
abbrev pub disk_size_range_ratings : List (String × Score)
disk_size_range_ratings = ("0-10TiB", 1) ∷ ("10-20TiB", 2) ∷ ("20-50TiB", 3) ∷ ("50+TiB", 4) ∷ []

-- ComplexityMatrix, by the OS score and then the disk score.
abbrev pub complexity_matrix : List (Score × List (Score × Score))
complexity_matrix =
    (0, (1, 0) ∷ (2, 0) ∷ (3, 0) ∷ (4, 0) ∷ [])
    ∷ (1, (1, 1) ∷ (2, 1) ∷ (3, 3) ∷ (4, 3) ∷ [])
    ∷ (2, (1, 2) ∷ (2, 2) ∷ (3, 3) ∷ (4, 3) ∷ [])
    ∷ (3, (1, 2) ∷ (2, 2) ∷ (3, 3) ∷ (4, 3) ∷ [])
    ∷ (4, (1, 4) ∷ (2, 4) ∷ (3, 4) ∷ (4, 4) ∷ [])
    ∷ []
